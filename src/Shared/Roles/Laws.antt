-- ===== src/Shared/Roles/Laws.antt =====
-- What is sent is what is read.
use Prim.Native.Char.{Char, code}
use Prim.Native.String.{◌++◌ as ◌++ₛ◌}
use text.Mathlib.TextLemmas
use shop_microservices.Prelude.{
  map, Bool-cases, inl, inr, eq_iff, String, ◌==◌, ◌≡◌, refl, sym, ◌∙◌, Bool, true, false, ◌&&◌,
  not, List, [], ◌∷◌, ap, contains, arith,
}
use shop_microservices.Shared.{Role}
use shop_microservices.Shared.Roles.{
  is_code, role_name, join_roles, split_comma, split_from, valid_roles, parse_roles, names_admin,
}
use shop_microservices.User.{includes_admin}

lacks_comma : String → Bool
lacks_comma String.[] = true
lacks_comma (String.◌∷◌ c text) = not (is_code (code c) b',') && lacks_comma text

append-cons : (text : String) (c : Char) → (String.◌∷◌ c String.[]) ++ₛ text ≡ String.◌∷◌ c text
append-cons text c =
    TextLemmas.cons-append c String.[] text ∙ ap (String.◌∷◌ c) (TextLemmas.nil-append text)

split_from-other :
    (current text : String) (c : Char)
    → is_code (code c) b',' ≡ false
    → split_from current (String.◌∷◌ c text) ≡ split_from (current ++ₛ String.◌∷◌ c String.[]) text
unfolding split_from
split_from-other current text c h = rw (split_from, h)

-- A piece without the separator goes into the current part.
split_from-append :
    (current piece rest : String)
    → lacks_comma piece ≡ true
    → split_from current (piece ++ₛ rest) ≡ split_from (current ++ₛ piece) rest
unfolding lacks_comma
split_from-append current String.[] rest h = rw (TextLemmas.nil-append, TextLemmas.append-nil)
split_from-append current (String.◌∷◌ c piece) rest h =
    ap (split_from current) (TextLemmas.cons-append c piece rest)
    ∙ split_from-other current (piece ++ₛ rest) c (ground arith)
    ∙ split_from-append (current ++ₛ String.◌∷◌ c String.[]) piece rest (ground arith)
    ∙ ap (λ p. split_from p rest)
        (TextLemmas.append_assoc current (String.◌∷◌ c String.[]) piece
          ∙ ap (λ p. current ++ₛ p) (append-cons piece c))

split_from-comma :
    (current rest : String) → split_from current ("," ++ₛ rest) ≡ current ∷ split_from "" rest
unfolding split_from
split_from-comma current rest =
    let comma : Char = "," in ap (split_from current) (append-cons rest comma)

split_from-end : (current : String) → split_from current "" ≡ current ∷ []
unfolding split_from
split_from-end current = refl

role_name-lacks_comma : (r : Role) → lacks_comma (role_name r) ≡ true
unfolding lacks_comma role_name
role_name-lacks_comma Role.user = refl
role_name-lacks_comma Role.admin = refl
role_name-lacks_comma Role.moderator = refl

split_comma-role :
    (r : Role) (rest : String)
    → split_comma (role_name r ++ₛ ("," ++ₛ rest)) ≡ role_name r ∷ split_comma rest
unfolding split_comma
split_comma-role r rest =
    split_from-append "" (role_name r) ("," ++ₛ rest) (role_name-lacks_comma r)
    ∙ split_from-comma ("" ++ₛ role_name r) rest
    ∙ rw TextLemmas.nil-append

split_comma-last : (r : Role) → split_comma (role_name r) ≡ role_name r ∷ []
unfolding split_comma role_name
split_comma-last Role.user = refl
split_comma-last Role.admin = refl
split_comma-last Role.moderator = refl

-- The parts of a header that the gateway writes.
split_comma-join_roles :
    (r : Role) (roles : List Role)
    → split_comma (join_roles (r ∷ roles)) ≡ map role_name (r ∷ roles)
unfolding join_roles
split_comma-join_roles r [] = split_comma-last r
split_comma-join_roles r (s ∷ roles) =
    split_comma-role r (join_roles (s ∷ roles))
    ∙ ap (λ ts. role_name r ∷ ts) (split_comma-join_roles s roles)

valid_roles-role_name : (roles : List Role) → valid_roles (map role_name roles) ≡ roles
unfolding valid_roles role_name
valid_roles-role_name [] = refl
valid_roles-role_name (Role.user ∷ roles) = ap (λ rs. Role.user ∷ rs) (valid_roles-role_name roles)
valid_roles-role_name (Role.admin ∷ roles) =
    ap (λ rs. Role.admin ∷ rs) (valid_roles-role_name roles)
valid_roles-role_name (Role.moderator ∷ roles) =
    ap (λ rs. Role.moderator ∷ rs) (valid_roles-role_name roles)

role_name-ne-empty : (r : Role) → (role_name r == "") ≡ false
unfolding role_name
role_name-ne-empty Role.user = refl
role_name-ne-empty Role.admin = refl
role_name-ne-empty Role.moderator = refl

split_comma-empty : split_comma "" ≡ "" ∷ []
unfolding split_comma
split_comma-empty = refl

join_roles-ne-empty : (r : Role) (roles : List Role) → (join_roles (r ∷ roles) == "") ≡ false
join_roles-ne-empty r roles = elim (Bool-cases (join_roles (r ∷ roles) == "")) [
  | inr other ↦ other
  | inl empty ↦
      let first : role_name r ≡ "" = cc (
        sym (split_comma-join_roles r roles),
        ap split_comma ((eq_iff (join_roles (r ∷ roles)) "").0 empty),
        split_comma-empty,
      ) in
      absurd (cc ((eq_iff (role_name r) "").1 first, role_name-ne-empty r))
]

-- The roles that a service reads of the gateway's header are those of the user, in their order.
pub parse_roles-join_roles : (roles : List Role) → parse_roles (join_roles roles) ≡ roles
unfolding parse_roles join_roles
parse_roles-join_roles [] = refl
parse_roles-join_roles (r ∷ roles) =
    rw (parse_roles, join_roles-ne-empty r roles, split_comma-join_roles r roles)
      (valid_roles-role_name (r ∷ roles))

contains_admin : (roles : List Role) → contains "admin" (map role_name roles) ≡ includes_admin roles
unfolding role_name includes_admin
contains_admin [] = refl
contains_admin (Role.user ∷ roles) = contains_admin roles
contains_admin (Role.admin ∷ roles) = refl
contains_admin (Role.moderator ∷ roles) = contains_admin roles

pub names_admin-join_roles :
    (roles : List Role) → names_admin (join_roles roles) ≡ includes_admin roles
unfolding names_admin join_roles includes_admin
names_admin-join_roles [] = refl
names_admin-join_roles (r ∷ roles) =
    rw (names_admin, join_roles-ne-empty r roles, split_comma-join_roles r roles)
      (contains_admin (r ∷ roles))
