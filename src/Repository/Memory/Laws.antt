-- ===== src/Repository/Memory/Laws.antt =====
-- The laws of `Repository` for the rows held in memory.
use Prim.Native.String.{len}
use shop_microservices.Prelude.{
  ℕ, zero, suc, ◌≤◌, ◌-◌, String, ◌==◌, eq_iff, ◌≡◌, refl, Bool, true, false, Option, none, some,
  inl, inr, ap, Bool-cases, Option-cases, List, [], ◌∷◌, map, All, Distinct, contains, length,
  subst, if◌then◌else◌, arith,
}
use shop_microservices.Repository.Memory.Rows

module _ (Row : Type 0) (key : Row → String) where
  pub head_lem :
      (t : List Row) (p : Row → Bool) (rs : List Row) (r : Row)
      → All (λ r. (p r ≡ true) × (Rows.find_one Row key t (key r) ≡ some r)) rs
      → Rows.head Row key rs ≡ some r
      → (p r ≡ true) × (Rows.find_one Row key t (key r) ≡ some r)
  head_lem t p [] r h e = cc
  head_lem t p (x ∷ rs) r h e =
      subst (λ x. (p x ≡ true) × (Rows.find_one Row key t (key x) ≡ some x)) (ground arith) h.0

  pub head-none :
      (rs : List Row) (k : String) → Rows.head Row key rs ≡ none → contains k (map key rs) ≡ false
  head-none [] k e = refl
  head-none (x ∷ rs) k e = cc

  pub first-All :
      (n : ℕ) (P : Row → Type 0) (rs : List Row) → All P rs → All P (Rows.first Row key n rs)
  first-All zero P rs h = tt
  first-All (suc n) P [] h = tt
  first-All (suc n) P (x ∷ rs) h = (h.0, first-All n P rs h.1)

  pub length-first : (n : ℕ) (rs : List Row) → length (Rows.first Row key n rs) ≤ n
  length-first zero rs = omega arith
  length-first (suc n) [] = omega arith
  length-first (suc n) (x ∷ rs) = omega (arith, length-first n rs)

  pub contains-first :
      (n : ℕ) (k : String) (rs : List Row)
      → contains k (map key rs) ≡ false
      → contains k (map key (Rows.first Row key n rs)) ≡ false
  contains-first zero k rs h = refl
  contains-first (suc n) k [] h = refl
  contains-first (suc n) k (x ∷ rs) h = ground (arith, contains-first n k rs)

  pub first-Distinct :
      (n : ℕ) (rs : List Row) → Distinct (map key rs) → Distinct (map key (Rows.first Row key n rs))
  first-Distinct zero rs h = tt
  first-Distinct (suc n) [] h = tt
  first-Distinct (suc n) (x ∷ rs) h = (contains-first n (key x) rs h.0, first-Distinct n rs h.1)

  pub find_where_complete_lem :
      (t : List Row) (p : Row → Bool) (k : String) (r : Row)
      → Rows.find_where Row key t p ≡ none
      → Rows.find_one Row key t k ≡ some r
      → p r ≡ false
  unfolding Rows.find_where
  find_where_complete_lem t p k r h e = ground (
    arith,
    Rows.matching_complete Row key t p (map key t) k r (Rows.contains-keys Row key t k r e) e,
    head-none (Rows.matching Row key t p (map key t)) k,
  )

  pub generate-ne-empty_lem : (t : List Row) → (Rows.generate Row key t == "") ≡ false
  generate-ne-empty_lem t = elim (Bool-cases (Rows.generate Row key t == "")) [
    | inl e ↦ absurd (
        omega
          (arith, ap len ((eq_iff (Rows.generate Row key t) "").0 e), Rows.len-generate Row key t))
    | inr e ↦ e
  ]

  pub find_where_sound_lem :
      (t : List Row) (p : Row → Bool) (r : Row)
      → Rows.find_where Row key t p ≡ some r
      → (p r ≡ true) × (Rows.find_one Row key t (key r) ≡ some r)
  unfolding Rows.find_where
  find_where_sound_lem t p r e =
      head_lem t p (Rows.matching Row key t p (map key t)) r
        (Rows.matching_sound Row key t p (map key t)) e

  pub find_many_sound_lem :
      (t : List Row) (p : Row → Bool) (rank : Row → ℕ) (limit : ℕ)
      → All
          (λ r. (p r ≡ true) × (Rows.find_one Row key t (key r) ≡ some r))
          (Rows.find_many Row key t p rank limit)
  unfolding Rows.find_many
  find_many_sound_lem t p rank limit =
      first-All limit (λ r. (p r ≡ true) × (Rows.find_one Row key t (key r) ≡ some r))
        (Rows.matching Row key t p (map key t)) (Rows.matching_sound Row key t p (map key t))

  pub length-find_many_lem :
      (t : List Row) (p : Row → Bool) (rank : Row → ℕ) (limit : ℕ)
      → length (Rows.find_many Row key t p rank limit) ≤ limit
  unfolding Rows.find_many
  length-find_many_lem t p rank limit = length-first limit (Rows.matching Row key t p (map key t))

  pub find_many_distinct_lem :
      (t : List Row) (p : Row → Bool) (rank : Row → ℕ) (limit : ℕ)
      → Distinct (map key (Rows.find_many Row key t p rank limit))
  unfolding Rows.find_many
  find_many_distinct_lem t p rank limit =
      first-Distinct limit (Rows.matching Row key t p (map key t))
        (Rows.matching-Distinct Row key t p (map key t))

  first_complete :
      (n : ℕ) (k : String) (rs : List Row)
      → contains k (map key rs) ≡ true
      → contains k (map key (Rows.first Row key n rs)) ≡ false
      → length (Rows.first Row key n rs) ≡ n
  first_complete zero k rs h out = refl
  first_complete (suc n) k [] h out = cc
  first_complete (suc n) k (x ∷ rs) h out = ground (arith, h, out, first_complete n k rs)

  pub find_many_complete_lem :
      (t : List Row) (p : Row → Bool) (rank : Row → ℕ) (limit : ℕ) (k : String) (r : Row)
      → Rows.find_one Row key t k ≡ some r
      → p r ≡ true
      → contains k (map key (Rows.find_many Row key t p rank limit)) ≡ false
      → length (Rows.find_many Row key t p rank limit) ≡ limit
  unfolding Rows.find_many
  find_many_complete_lem t p rank limit k r e holds out =
      first_complete limit k (Rows.matching Row key t p (map key t))
        (Rows.matching_complete Row key t p (map key t) k r (Rows.contains-keys Row key t k r e) e
          holds)
        out

  pub find_one-save_lem :
      (t : List Row) (r : Row) (k : String)
      → Rows.find_one Row key (r ∷ t) k ≡ (if key r == k then some r else Rows.find_one Row key t k)
  unfolding Rows.find_one
  find_one-save_lem t r k = refl

  pub find_one-generate_lem :
      (t : List Row) → Rows.find_one Row key t (Rows.generate Row key t) ≡ none
  find_one-generate_lem t = Rows.find_one-long Row key t (Rows.generate Row key t) (omega arith)

  rest_from-All :
      (n : ℕ) (P : Row → Type 0) (rs : List Row) → All P rs → All P (Rows.rest_from Row key n rs)
  rest_from-All zero P rs h = h
  rest_from-All (suc n) P [] h = tt
  rest_from-All (suc n) P (x ∷ rs) h = rest_from-All n P rs h.1

  length-rest_from : (n : ℕ) (rs : List Row) → length (Rows.rest_from Row key n rs) ≡ length rs - n
  length-rest_from zero rs = omega arith
  length-rest_from (suc n) [] = omega arith
  length-rest_from (suc n) (x ∷ rs) = omega (arith, length-rest_from n rs)

  length-first-le : (n : ℕ) (rs : List Row) → length (Rows.first Row key n rs) ≤ length rs
  length-first-le zero rs = omega arith
  length-first-le (suc n) [] = omega arith
  length-first-le (suc n) (x ∷ rs) = omega (arith, length-first-le n rs)

  pub find_and_count_sound_lem :
      (t : List Row) (p : Row → Bool) (skip take : ℕ)
      → All
          (λ r. (p r ≡ true) × (Rows.find_one Row key t (key r) ≡ some r))
          (Rows.find_and_count Row key t p skip take).0
  unfolding Rows.find_and_count
  find_and_count_sound_lem t p skip take =
      let P = λ (r : Row). (p r ≡ true) × (Rows.find_one Row key t (key r) ≡ some r) in
      let rs = Rows.matching Row key t p (map key t) in
      first-All take P (Rows.rest_from Row key skip rs)
        (rest_from-All skip P rs (Rows.matching_sound Row key t p (map key t)))

  pub length-find_and_count_lem :
      (t : List Row) (p : Row → Bool) (skip take : ℕ)
      → (length (Rows.find_and_count Row key t p skip take).0 ≤ take)
        × (length (Rows.find_and_count Row key t p skip take).0
            ≤ (Rows.find_and_count Row key t p skip take).1 - skip)
  unfolding Rows.find_and_count
  length-find_and_count_lem t p skip take =
      let rs = Rows.matching Row key t p (map key t) in
      (
        length-first take (Rows.rest_from Row key skip rs),
        omega (
          arith,
          length-first-le take (Rows.rest_from Row key skip rs),
          length-rest_from skip rs,
        ),
      )

  unfoldable pub insert : (Row → Row → Bool) → List Row → Row → Option (List Row)
  unfolding Rows.find_where
  insert clash t r = elim (Rows.find_where Row key t (clash r)) [
    | none ↦ some (r ∷ t)
    | some _ ↦ none
  ]

  pub insert_some_lem :
      (clash : Row → Row → Bool) (t t' : List Row) (r : Row)
      → insert clash t r ≡ some t'
      → t' ≡ r ∷ t
  unfolding insert
  insert_some_lem clash t t' r e = ground arith

  pub insert_clash_lem :
      (clash : Row → Row → Bool) (t : List Row) (r r' : Row)
      → Rows.find_one Row key t (key r') ≡ some r'
      → clash r r' ≡ true
      → insert clash t r ≡ none
  unfolding insert
  insert_clash_lem clash t r r' e c =
      ground (arith, find_where_complete_lem t (clash r) (key r') r')

  pub insert_none_lem :
      (clash : Row → Row → Bool) (t : List Row) (r : Row)
      → insert clash t r ≡ none
      → (r' : Row) × (Rows.find_one Row key t (key r') ≡ some r') × (clash r r' ≡ true)
  unfolding insert
  insert_none_lem clash t r e = elim (Option-cases (Rows.find_where Row key t (clash r))) [
    | inl n ↦ absurd (ground arith)
    | inr (r', s) ↦ let found = find_where_sound_lem t (clash r) r' s in (r', found.1, found.0)
  ]
