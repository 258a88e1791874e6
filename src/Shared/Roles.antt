-- ===== src/Shared/Roles.antt =====
-- How the roles of a user travel: `user.roles.join(',')` of the gateway's proxy.service.ts, and what
-- wallets.controller.ts, users.controller.ts (`parseRoles`) and products.controller.ts
-- (`requireAdmin`) read of the header.
pub mod Laws
use Prim.Native.Char.{Char, code}
use Prim.Native.String
use Prim.Native.String.{◌++◌ as ◌++ₛ◌}
use shop_microservices.Prelude.{
  ℕ, String, ◌==◌, Bool, true, false, ◌&&◌, ◌||◌, Option, none, some, List, [], ◌∷◌, contains, leb,
  if◌then◌else◌,
}
use shop_microservices.Shared.{Role}

-- The values of the enum.
unfoldable pub role_name : Role → String
role_name Role.user = "user"
role_name Role.admin = "admin"
role_name Role.moderator = "moderator"

-- `roles.join(',')`
unfoldable pub join_roles : List Role → String
unfolding role_name
join_roles [] = ""
join_roles (r ∷ []) = role_name r
join_roles (r ∷ s ∷ roles) = role_name r ++ₛ ("," ++ₛ join_roles (s ∷ roles))

abbrev is_code : ℕ → ℕ → Bool
is_code a b = leb a b && leb b a

-- `text.split(',')`, with `current` for what was read of the part so far
unfoldable pub split_from : String → String → List String
split_from current String.[] = current ∷ []
split_from current (String.◌∷◌ c text) =
    let closed = current ∷ split_from "" text in
    let longer = split_from (current ++ₛ String.◌∷◌ c String.[]) text in
    if is_code (code c) b',' then closed else longer

unfoldable pub split_comma : String → List String
unfolding split_from
split_comma text = split_from "" text

-- What `trim` takes for white space.
unfoldable pub is_space : Char → Bool
is_space c =
    (leb 9 (code c) && leb (code c) 13)
    || is_code (code c) 32
    || is_code (code c) 160
    || is_code (code c) 5760
    || (leb 8192 (code c) && leb (code c) 8202)
    || is_code (code c) 8232
    || is_code (code c) 8233
    || is_code (code c) 8239
    || is_code (code c) 8287
    || is_code (code c) 12288
    || is_code (code c) 65279

unfoldable pub trim_start : String → String
unfolding is_space
trim_start String.[] = ""
trim_start (String.◌∷◌ c text) =
    let shorter = trim_start text in if is_space c then shorter else String.◌∷◌ c text

unfoldable pub trim_end : String → String
unfolding is_space
trim_end String.[] = ""
trim_end (String.◌∷◌ c text) =
    let rest = trim_end text in if rest == "" && is_space c then "" else String.◌∷◌ c rest

-- `valid.has(text)`, with the role that the text is
unfoldable pub role_of : String → Option Role
role_of text =
    if text == "user"
    then some Role.user
    else if text == "admin"
    then some Role.admin
    else if text == "moderator"
    then some Role.moderator
    else none

unfoldable pub valid_roles : List String → List Role
unfolding trim_start trim_end role_of
valid_roles [] = []
valid_roles (text ∷ texts) = elim (role_of (trim_end (trim_start text))) [
  | none ↦ valid_roles texts
  | some r ↦ r ∷ valid_roles texts
]

-- `parseRoles`; a header that is absent is the empty text here, which is as falsy.
unfoldable pub parse_roles : String → List Role
unfolding split_comma valid_roles
parse_roles header = if header == "" then [] else valid_roles (split_comma header)

-- `(rolesHeader ? rolesHeader.split(',') : []).includes(Role.ADMIN)`
unfoldable pub names_admin : String → Bool
unfolding split_comma
names_admin header = if header == "" then false else contains "admin" (split_comma header)
