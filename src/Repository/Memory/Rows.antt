-- ===== src/Repository/Memory/Rows.antt =====
-- The rows of a table held in memory, and how each call reads and changes them.
use text.Mathlib.TextPositions.{len-append}
use Prim.Native.String.{◌++◌ as ◌+++◌, len}
use mathlib.Core.Option
use shop_microservices.Prelude.{
  ℕ, zero, suc, ◌≤◌, ◌<◌, String, ◌==◌, eq_iff, ◌≡◌, refl, Bool, true, Option, none, some, inl, inr,
  ap, Bool-cases, Option-cases, List, [], ◌∷◌, map, All, Distinct, contains, length, subst, sym,
  if◌then◌else◌, arith,
}
use shop_microservices.Repository.{Patch}

module _ (Row : Type 0) (key : Row → String) where
  unfoldable pub find_one : List Row → String → Option Row
  find_one [] k = none
  find_one (r ∷ t) k = if key r == k then some r else find_one t k

  -- The matching rows of `t` among the keys of `keys`, each once.
  unfoldable pub matching : List Row → (Row → Bool) → List String → List Row
  matching t p [] = []
  matching t p (k ∷ ks) =
      let rest = matching t p ks in
      elim (find_one t k) [
        | none ↦ rest
        | some r ↦ if p r then (if contains k (map key rest) then rest else r ∷ rest) else rest
      ]

  abbrev pub head : List Row → Option Row
  head [] = none
  head (r ∷ t) = some r

  abbrev pub first : ℕ → List Row → List Row
  first zero t = []
  first (suc n) [] = []
  first (suc n) (r ∷ t) = r ∷ first n t

  abbrev pub rest_from : ℕ → List Row → List Row
  rest_from zero t = t
  rest_from (suc n) [] = []
  rest_from (suc n) (r ∷ t) = rest_from n t

  unfoldable pub update : List Row → String → Patch Row → List Row
  update [] i f = []
  update (r ∷ t) i f = (if key r == i then f r else r) ∷ update t i f

  -- Longer than every key.
  unfoldable pub generate : List Row → String
  generate [] = "u"
  generate (r ∷ t) = key r +++ generate t

  pub key-find_one_lem : (t : List Row) (k : String) (r : Row) → find_one t k ≡ some r → key r ≡ k
  unfolding find_one
  key-find_one_lem [] k r h = cc
  key-find_one_lem (x ∷ t) k r h = ground (arith, eq_iff (key x) k, key-find_one_lem t k r)

  pub find_one-key :
      (t : List Row) (k : String) (r : Row) → find_one t k ≡ some r → find_one t (key r) ≡ some r
  find_one-key t k r e = subst (λ j. find_one t j ≡ some r) (sym (key-find_one_lem t k r e)) e

  pub find_one-update_lem :
      (t : List Row) (i : String) (f : Patch Row)
      → ((r : Row) → key (f r) ≡ key r)
      → (k : String)
      → find_one (update t i f) k ≡ (if i == k then Option.map f (find_one t k) else find_one t k)
  unfolding find_one update
  find_one-update_lem [] i f h k = ground arith
  find_one-update_lem (x ∷ t) i f h k = ground (
    arith,
    h x,
    eq_iff i k,
    eq_iff (key x) i,
    eq_iff (key x) k,
    eq_iff (key (f x)) k,
    find_one-update_lem t i f h k,
  )

  pub len-generate : (t : List Row) → 0 < len (generate t)
  unfolding generate
  len-generate [] = omega arith
  len-generate (x ∷ t) = omega (arith, len-append (key x) (generate t), len-generate t)

  pub find_one-long : (t : List Row) (k : String) → len (generate t) ≤ len k → find_one t k ≡ none
  unfolding find_one generate
  find_one-long [] k h = refl
  find_one-long (x ∷ t) k h = elim (Bool-cases (key x == k)) [
    | inl same ↦ absurd (
        omega (
          arith,
          len-append (key x) (generate t),
          ap len ((eq_iff (key x) k).0 same),
          len-generate t,
        ))
    | inr other ↦ rw other (find_one-long t k (omega (arith, len-append (key x) (generate t))))
  ]

  pub matching_sound :
      (t : List Row) (p : Row → Bool) (ks : List String)
      → All (λ r. (p r ≡ true) × (find_one t (key r) ≡ some r)) (matching t p ks)
  unfolding matching
  matching_sound t p [] = tt
  matching_sound t p (k ∷ ks) = elim (Option-cases (find_one t k)) [
    | inl e ↦ rw (e, matching) (matching_sound t p ks)
    | inr (r, e) ↦ rw (e, matching) (ground (arith, matching_sound t p ks, find_one-key t k r e))
  ]

  pub matching-Distinct :
      (t : List Row) (p : Row → Bool) (ks : List String) → Distinct (map key (matching t p ks))
  unfolding matching
  matching-Distinct t p [] = tt
  matching-Distinct t p (k ∷ ks) = elim (Option-cases (find_one t k)) [
    | inl e ↦ rw (e, matching) (matching-Distinct t p ks)
    | inr (r, e) ↦
        rw (e, matching) (ground (arith, matching-Distinct t p ks, key-find_one_lem t k r e))
  ]

  pub matching_complete :
      (t : List Row) (p : Row → Bool) (ks : List String) (k : String) (r : Row)
      → contains k ks ≡ true
      → find_one t k ≡ some r
      → p r ≡ true
      → contains k (map key (matching t p ks)) ≡ true
  unfolding matching
  matching_complete t p [] k r h e q = cc
  matching_complete t p (j ∷ ks) k r h e q =
      ground (
        arith,
        eq_iff j k,
        key-find_one_lem t k r e,
        eq_iff (key r) k,
        matching_complete t p ks k r,
      )

  pub contains-keys :
      (t : List Row) (k : String) (r : Row) → find_one t k ≡ some r → contains k (map key t) ≡ true
  unfolding find_one
  contains-keys [] k r h = cc
  contains-keys (x ∷ t) k r h = ground (arith, contains-keys t k r)

  unfoldable pub find_where : List Row → (Row → Bool) → Option Row
  unfolding matching
  find_where t p = head (matching t p (map key t))

  unfoldable pub find_many : List Row → (Row → Bool) → (Row → ℕ) → ℕ → List Row
  unfolding matching
  find_many t p rank limit = first limit (matching t p (map key t))

  unfoldable pub find_and_count : List Row → (Row → Bool) → ℕ → ℕ → List Row × ℕ
  unfolding matching
  find_and_count t p skip take =
      let rs = matching t p (map key t) in (first take (rest_from skip rs), length rs)
