-- ===== src/User/Examples.antt =====
-- The theorems about profiles on a table with one profile.
use shop_microservices.Prelude.{◌⊎◌, refl, none, some, List, [], ◌∷◌, true}
use shop_microservices.Repository.Memory.{memory, memory_unique}
use shop_microservices.Shared.{Role}
use shop_microservices.Shared.Messages.{UserRegisteredEvent}
use shop_microservices.User.{
  ProfileEntity, UpdateProfileInput, Tables, profile_key, same_email, find_all, find_by_id, update,
  remove, includes_admin, is_admin,
}
use shop_microservices.User.Access.{Denied, strangers-Denied}
use shop_microservices.User.Profiles.{Opened, Clashes, handle_user_registered_cases}

abbrev tables : Tables
tables = record {
  profiles = memory ProfileEntity profile_key;
  unique_email = memory_unique ProfileEntity profile_key same_email;
}

abbrev profile : ProfileEntity
profile = record {
  id = "u1";
  email = "u1@shop.test";
  name = some "Ada";
  avatar_url = none;
  phone = none;
  date_of_birth = none;
  address_line = none;
  city = some "London";
  country = some "GB";
  postal_code = none;
  is_active = true;
  created_at = 0;
  updated_at = 0;
}

abbrev profiles : List ProfileEntity
profiles = profile ∷ []

abbrev input : UpdateProfileInput
input = record {
  name = some "Eve";
  avatar_url = none;
  phone = none;
  date_of_birth = none;
  address_line = none;
  city = none;
  country = none;
  postal_code = none;
}

strangers-Denied_example :
    Denied profiles (find_by_id tables "u1" "u2" (Role.user ∷ []) profiles)
    × Denied profiles (update tables 5 "u1" input "u2" (Role.user ∷ []) profiles)
    × Denied profiles (remove tables 5 "u1" (Role.user ∷ []) profiles)
    × Denied profiles (find_all tables 1 10 (Role.user ∷ []) profiles)
unfolding includes_admin is_admin
strangers-Denied_example =
    strangers-Denied tables 5 1 10 "u1" "u2" input (Role.user ∷ []) profiles refl refl

abbrev registered : UserRegisteredEvent
registered = record { user_id = "u2"; email = "u2@shop.test" }

handle_user_registered_cases_example :
    Opened tables 5 9 registered profiles ⊎ Clashes tables 5 registered profiles
handle_user_registered_cases_example = handle_user_registered_cases tables 5 9 registered profiles
