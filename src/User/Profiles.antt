-- ===== src/User/Profiles.antt =====
-- Profiles: opened once by the registration event, and hidden once they are removed.
use shop_microservices.Prelude.{
  eq_iff, ℕ, String, ◌==◌, ◌≡◌, ◌⊎◌, inl, inr, refl, true, none, some, Option-cases, Bool-cases,
  eq_refl, subst,
}
use shop_microservices.Exec.{ok, err}
use shop_microservices.Shared.Messages.{UserRegisteredEvent}
use shop_microservices.User.{
  ProfileEntity, unique_violation, Tables, new_profile, create_profile, handle_user_registered,
}

module _ (T : Tables) where
  handled_existing :
      (now : ℕ) (event : UserRegisteredEvent) (t : T.profiles.Table) (p : ProfileEntity)
      → T.profiles.find_one t event.user_id ≡ some p
      → handle_user_registered T now event t ≡ (ok tt, t)
  unfolding handle_user_registered create_profile
  handled_existing now event t p found = rw (handle_user_registered, create_profile, found)

  -- The user has a profile, a second delivery changes nothing, and the other profiles are as they
  -- were.
  abbrev pub Opened : ℕ → ℕ → UserRegisteredEvent → T.profiles.Table → Type 0
  Opened now later event t =
      (t' : T.profiles.Table) × (p : ProfileEntity) × (handle_user_registered T now event t
        ≡ (ok tt, t'))
      × (T.profiles.find_one t' event.user_id ≡ some p)
      × (handle_user_registered T later event t' ≡ (ok tt, t'))
      × ((k : String) (q : ProfileEntity)
          → T.profiles.find_one t k ≡ some q
          → T.profiles.find_one t' k ≡ some q)

  -- The email belongs to another profile: an error, and nothing changes.
  abbrev pub Clashes : ℕ → UserRegisteredEvent → T.profiles.Table → Type 0
  Clashes now event t =
      (q : ProfileEntity) × (T.profiles.find_one t q.id ≡ some q)
      × ((event.email == q.email) ≡ true)
      × (handle_user_registered T now event t ≡ (err unique_violation, t))

  saved_keeps :
      (p : ProfileEntity) (t : T.profiles.Table)
      → T.profiles.find_one t p.id ≡ none
      → (k : String) (q : ProfileEntity) → T.profiles.find_one t k ≡ some q
      → T.profiles.find_one (T.profiles.save t p) k ≡ some q
  saved_keeps p t absent k q stored = elim (Bool-cases (p.id == k)) [
    | inl same ↦
        absurd
          (cc (stored, subst (λ i. T.profiles.find_one t i ≡ none) ((eq_iff p.id k).0 same) absent))
    | inr other ↦ rw (T.profiles.find_one-save t p k, other) stored
  ]

  -- A user-registered event either gives the user a profile, leaves every earlier profile as it was
  -- and changes nothing when it is delivered again, or reports that another profile has the email
  -- and changes nothing.
  pub handle_user_registered_cases :
      (now later : ℕ) (event : UserRegisteredEvent) (t : T.profiles.Table)
      → Opened now later event t ⊎ Clashes now event t
  unfolding handle_user_registered create_profile new_profile
  handle_user_registered_cases now later event t =
      let row = new_profile now event.user_id event.email in
      elim (Option-cases (T.profiles.find_one t event.user_id)) [
        | inr (p, found) ↦ inl (
          t,
          p,
          handled_existing now event t p found,
          found,
          handled_existing later event t p found,
          λ k q h. h,
        )
        | inl absent ↦ elim (Option-cases (T.unique_email.insert t row)) [
          | inl refused ↦
              let (q, stored, clash) = T.unique_email.insert_none t row refused in
              inr (q, stored, clash, rw (handle_user_registered, create_profile, absent, refused))
          | inr (t', accepted) ↦
              let here : T.profiles.find_one (T.profiles.save t row) event.user_id ≡ some row =
                rw (T.profiles.find_one-save t row event.user_id, eq_refl event.user_id) refl in
              inl (
                T.profiles.save t row,
                row,
                rw (
                  handle_user_registered,
                  create_profile,
                  absent,
                  accepted,
                  T.unique_email.insert_some t t' row accepted,
                ),
                here,
                handled_existing later event (T.profiles.save t row) row here,
                saved_keeps row t absent,
              )
        ]
      ]
