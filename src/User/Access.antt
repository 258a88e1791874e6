-- ===== src/User/Access.antt =====
-- Who may read and change a profile.
use shop_microservices.Prelude.{ℕ, String, ◌==◌, ◌≡◌, inl, inr, refl, false, List, Option-cases}
use shop_microservices.Exec.{Result, ok, err}
use shop_microservices.Shared.{Role}
use shop_microservices.User.{
  not_found_of, forbidden, UpdateProfileInput, UserError, Tables, includes_admin, find_active,
  find_allowed, find_all, find_by_id, update, remove,
}

-- An operation that reports an error and leaves the table as it is.
abbrev pub Denied : {A S : Type 0} → S → Result UserError A × S → Type 0
Denied t (ok a, t') = ⊥
Denied t (err e, t') = t' ≡ t

module _ (T : Tables) where
  find_allowed-Denied :
      (id requester_id : String) (roles : List Role) (t : T.profiles.Table)
      → requester_id == id ≡ false
      → includes_admin roles ≡ false
      → (e : UserError) × (find_allowed T id requester_id roles t ≡ (err e, t))
  unfolding find_allowed
  find_allowed-Denied id requester_id roles t other plain =
      elim (Option-cases (find_active T id t)) [
        | inl absent ↦ (not_found_of id, rw (find_allowed, absent))
        | inr (p, found) ↦ (forbidden "Access denied", rw (find_allowed, found, other, plain))
      ]

  -- A requester who is neither the owner of a profile nor an administrator can neither read nor
  -- change nor remove it, nor list all profiles: each call reports an error and leaves the table as
  -- it is.
  pub strangers-Denied :
      (now id_page limit : ℕ) (id requester_id : String) (input : UpdateProfileInput)
      (roles : List Role) (t : T.profiles.Table)
      → requester_id == id ≡ false
      → includes_admin roles ≡ false
      → Denied t (find_by_id T id requester_id roles t)
        × Denied t (update T now id input requester_id roles t)
        × Denied t (remove T now id roles t)
        × Denied t (find_all T id_page limit roles t)
  unfolding find_by_id update remove find_all
  strangers-Denied now id_page limit id requester_id input roles t other plain =
      let (e, fails) = find_allowed-Denied id requester_id roles t other plain in
      (rw fails refl, rw fails refl, rw plain refl, rw plain refl)
