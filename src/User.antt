-- ===== src/User.antt =====
-- services/user-service: users.service.ts and user-events.consumer.ts with profile.entity.ts,
-- users.inputs.ts and users.outputs.ts. Dates are kept as the text of the request.
pub mod Access
pub mod Profiles
pub mod Controller
mod Examples
use Prim.Native.String.{◌++◌ as ◌++ₛ◌}
use shop_microservices.Prelude.{
  ℕ, ◌-◌, ◌*◌, String, ◌==◌, Bool, true, false, ◌||◌, Option, none, some, List, [], ◌∷◌, map,
  if◌then◌else◌,
}
use shop_microservices.Exec.{Exec, pure, throw, gets, modify, ◌>>=◌, ◌>>◌}
use shop_microservices.Repository.{Repository, Unique}
use shop_microservices.Shared.{Role}
use shop_microservices.Shared.Messages.{UserRegisteredEvent}
use shop_microservices.Shared.Pages.{PageMeta, page_meta}

pub record ProfileEntity : Type 0 where
  pub id : String
  pub email : String
  pub name : Option String
  pub avatar_url : Option String
  pub phone : Option String
  pub date_of_birth : Option String
  pub address_line : Option String
  pub city : Option String
  pub country : Option String
  pub postal_code : Option String
  pub is_active : Bool
  pub created_at : ℕ
  pub updated_at : ℕ

-- A field that the request leaves out is `none`.
pub record UpdateProfileInput : Type 0 where
  pub name : Option String
  pub avatar_url : Option String
  pub phone : Option String
  pub date_of_birth : Option String
  pub address_line : Option String
  pub city : Option String
  pub country : Option String
  pub postal_code : Option String

pub record ProfileResult : Type 0 where
  pub id : String
  pub email : String
  pub name : Option String
  pub avatar_url : Option String
  pub phone : Option String
  pub date_of_birth : Option String
  pub address_line : Option String
  pub city : Option String
  pub country : Option String
  pub postal_code : Option String
  pub is_active : Bool
  pub created_at : ℕ
  pub updated_at : ℕ

-- NotFoundException, ForbiddenException and a violated unique column.
pub data UserError : Type 0 where
  not_found forbidden : String → UserError
  unique_violation : UserError

abbrev pub profile_key : ProfileEntity → String
profile_key r = r.id

abbrev pub same_email : ProfileEntity → ProfileEntity → Bool
same_email a b = a.email == b.email

pub record Tables : Type 1 where
  pub profiles : Repository ProfileEntity profile_key
  pub unique_email : Unique profiles same_email

unfoldable pub to_result : ProfileEntity → ProfileResult
to_result p = record {
  id = p.id;
  email = p.email;
  name = p.name;
  avatar_url = p.avatar_url;
  phone = p.phone;
  date_of_birth = p.date_of_birth;
  address_line = p.address_line;
  city = p.city;
  country = p.country;
  postal_code = p.postal_code;
  is_active = p.is_active;
  created_at = p.created_at;
  updated_at = p.updated_at;
}

unfoldable pub new_profile : ℕ → String → String → ProfileEntity
new_profile now id email = record {
  id = id;
  email = email;
  name = none;
  avatar_url = none;
  phone = none;
  date_of_birth = none;
  address_line = none;
  city = none;
  country = none;
  postal_code = none;
  is_active = true;
  created_at = now;
  updated_at = now;
}

abbrev pub defined_or : Option String → Option String → Option String
defined_or none old = old
defined_or (some new) old = some new

-- `{ ...profile, ...defined }`
unfoldable pub merge : UpdateProfileInput → ProfileEntity → ProfileEntity
merge input p = record p {
  name = defined_or input.name p.name;
  avatar_url = defined_or input.avatar_url p.avatar_url;
  phone = defined_or input.phone p.phone;
  date_of_birth = defined_or input.date_of_birth p.date_of_birth;
  address_line = defined_or input.address_line p.address_line;
  city = defined_or input.city p.city;
  country = defined_or input.country p.country;
  postal_code = defined_or input.postal_code p.postal_code;
}

unfoldable pub is_admin : Role → Bool
is_admin Role.user = false
is_admin Role.admin = true
is_admin Role.moderator = false

-- `roles.includes(Role.ADMIN)`
unfoldable pub includes_admin : List Role → Bool
unfolding is_admin
includes_admin [] = false
includes_admin (r ∷ roles) = is_admin r || includes_admin roles

unfoldable pub not_found_of : String → UserError
not_found_of id = not_found ("User " ++ₛ (id ++ₛ " not found"))

module _ (T : Tables) where
  abbrev pub Action : Type 0 → Type 0
  Action A = Exec UserError T.profiles.Table A

  unfoldable pub find_active : String → T.profiles.Table → Option ProfileEntity
  find_active id t = elim (T.profiles.find_one t id) [
    | none ↦ none
    | some p ↦ if p.is_active then some p else none
  ]

  -- The profile that `findById` and `update` go on with.
  unfoldable pub find_allowed : String → String → List Role → Action ProfileEntity
  unfolding find_active includes_admin not_found_of
  find_allowed id requester_id requester_roles t = elim (find_active id t) [
    | none ↦ throw (not_found_of id) t
    | some p ↦
        if requester_id == id || includes_admin requester_roles
        then pure p t
        else throw (forbidden "Access denied") t
  ]

  unfoldable pub find_all : ℕ → ℕ → List Role → Action (List ProfileResult × PageMeta)
  unfolding includes_admin to_result page_meta
  find_all page limit requester_roles t =
      if includes_admin requester_roles
      then (let found = T.profiles.find_and_count t (λ p. p.is_active) ((page - 1) * limit) limit in
          pure (map to_result found.0, page_meta page limit found.1) t)
      else throw (forbidden "Only admins can list users") t

  unfoldable pub find_by_id : String → String → List Role → Action ProfileResult
  unfolding find_allowed to_result
  find_by_id id requester_id requester_roles =
      find_allowed id requester_id requester_roles >>= λ p. pure (to_result p)

  unfoldable pub update :
      ℕ → String → UpdateProfileInput → String → List Role → Action ProfileResult
  unfolding find_allowed merge to_result
  update now id input requester_id requester_roles =
      find_allowed id requester_id requester_roles >>= λ p.
      modify (λ t. T.profiles.save t (record (merge input p) { updated_at = now }))
      >> pure (to_result (record (merge input p) { updated_at = now }))

  unfoldable pub remove : ℕ → String → List Role → Action (Unit {0})
  unfolding includes_admin not_found_of
  remove now id requester_roles t =
      if includes_admin requester_roles
      then elim (T.profiles.find_one t id) [
        | none ↦ throw (not_found_of id) t
        | some p ↦ pure tt (T.profiles.save t (record p { is_active = false; updated_at = now }))
      ]
      else throw (forbidden "Only admins can delete users") t

  unfoldable pub create_profile : ℕ → String → String → Action ProfileResult
  unfolding new_profile to_result
  create_profile now id email t = elim (T.profiles.find_one t id) [
    | some existing ↦ pure (to_result existing) t
    | none ↦ elim (T.unique_email.insert t (new_profile now id email)) [
      | none ↦ throw unique_violation t
      | some t' ↦ pure (to_result (new_profile now id email)) t'
    ]
  ]

  -- `handleUserRegistered`
  unfoldable pub handle_user_registered : ℕ → UserRegisteredEvent → Action (Unit {0})
  unfolding create_profile
  handle_user_registered now event =
      create_profile now event.user_id event.email >>= λ profile. pure tt
