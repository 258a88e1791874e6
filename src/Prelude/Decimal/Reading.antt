-- ===== src/Prelude/Decimal/Reading.antt =====
-- Two numbers with the same text in a template literal are the same.
use Prim.Native.String.{String, ◌++◌, count}
use text.Mathlib.Text.{◌==◌}
use text.Mathlib.TextLemmas.{length-append, append_inj, append-nil, append_assoc, nil-append}
use native.Mathlib.Omega.{arith}
use shop_microservices.Prelude.Tests.{if◌then◌else◌, ltb}
use shop_microservices.Prelude.{
  ℕ, zero, suc, ◌/◌, ◌%◌, ◌<◌, ◌≤◌, ◌+◌, ◌≡◌, refl, sym, ap, ◌∙◌, true, false, inl, inr, Bool-cases,
}
use shop_microservices.Prelude.Decimal.{digit, digits_before, show_number}

value_of : String → ℕ
value_of s =
    if s == "0"
    then 0
    else if s == "1"
    then 1
    else if s == "2"
    then 2
    else if s == "3"
    then 3
    else if s == "4"
    then 4
    else if s == "5"
    then 5
    else if s == "6"
    then 6
    else if s == "7"
    then 7
    else if s == "8"
    then 8
    else 9

value_of-digit : (n : ℕ) → n < 10 → value_of (digit n) ≡ n
unfolding value_of digit
value_of-digit zero h = refl
value_of-digit (suc zero) h = refl
value_of-digit (suc (suc zero)) h = refl
value_of-digit (suc (suc (suc zero))) h = refl
value_of-digit (suc (suc (suc (suc zero)))) h = refl
value_of-digit (suc (suc (suc (suc (suc zero))))) h = refl
value_of-digit (suc (suc (suc (suc (suc (suc zero)))))) h = refl
value_of-digit (suc (suc (suc (suc (suc (suc (suc zero))))))) h = refl
value_of-digit (suc (suc (suc (suc (suc (suc (suc (suc zero)))))))) h = refl
value_of-digit (suc (suc (suc (suc (suc (suc (suc (suc (suc zero))))))))) h = refl
value_of-digit (suc (suc (suc (suc (suc (suc (suc (suc (suc (suc n)))))))))) h =
    absurd (omega (arith, h))

digit_inj : (n m : ℕ) → n < 10 → m < 10 → digit n ≡ digit m → n ≡ m
digit_inj n m low low' same = sym (value_of-digit n low) ∙ ap value_of same ∙ value_of-digit m low'

count-digit : (n : ℕ) → count (digit n) ≡ 1
unfolding digit
count-digit zero = refl
count-digit (suc zero) = refl
count-digit (suc (suc zero)) = refl
count-digit (suc (suc (suc zero))) = refl
count-digit (suc (suc (suc (suc zero)))) = refl
count-digit (suc (suc (suc (suc (suc zero))))) = refl
count-digit (suc (suc (suc (suc (suc (suc zero)))))) = refl
count-digit (suc (suc (suc (suc (suc (suc (suc zero))))))) = refl
count-digit (suc (suc (suc (suc (suc (suc (suc (suc zero)))))))) = refl
count-digit (suc (suc (suc (suc (suc (suc (suc (suc (suc n))))))))) = refl

digits_before-append :
    (f n : ℕ) (later : String) → digits_before f n later ≡ digits_before f n "" ++ later
unfolding digits_before
digits_before-append zero n later = sym (nil-append later)
digits_before-append (suc f) n later = elim (Bool-cases (ltb n 10)) [
  | inl small ↦ rw small (ap (λ s. s ++ later) (sym (append-nil (digit n))))
  | inr large ↦ rw large (
      digits_before-append f (n / 10) (digit (n % 10) ++ later)
      ∙ sym (append_assoc (digits_before f (n / 10) "") (digit (n % 10)) later)
      ∙ ap (λ s. s ++ later)
          (sym (
            ap (digits_before f (n / 10)) (append-nil (digit (n % 10)))
            ∙ digits_before-append f (n / 10) (digit (n % 10)))))
]

digits_before_small : (f n : ℕ) → ltb n 10 ≡ true → digits_before (suc f) n "" ≡ digit n
unfolding digits_before
digits_before_small f n small = rw small (append-nil (digit n))

digits_before_large :
    (f n : ℕ)
    → ltb n 10 ≡ false
    → digits_before (suc f) n "" ≡ digits_before f (n / 10) "" ++ digit (n % 10)
unfolding digits_before
digits_before_large f n large = rw large (
    ap (digits_before f (n / 10)) (append-nil (digit (n % 10)))
    ∙ digits_before-append f (n / 10) (digit (n % 10)))

count_large :
    (f n : ℕ)
    → ltb n 10 ≡ false
    → count (digits_before (suc f) n "") ≡ count (digits_before f (n / 10) "") + 1
count_large f n large =
    ap count (digits_before_large f n large)
    ∙ length-append (digits_before f (n / 10) "") (digit (n % 10))
    ∙ ap (λ k. count (digits_before f (n / 10) "") + k) (count-digit (n % 10))

count_small : (f n : ℕ) → ltb n 10 ≡ true → count (digits_before (suc f) n "") ≡ 1
count_small f n small = ap count (digits_before_small f n small) ∙ count-digit n

count_positive : (f n : ℕ) → n < f → 1 ≤ count (digits_before f n "")
count_positive zero n low = absurd (omega (arith, low))
count_positive (suc f) n low = elim (Bool-cases (ltb n 10)) [
  | inl small ↦ omega (arith, count_small f n small)
  | inr large ↦ omega (arith, count_large f n large)
]

digits_before_inj :
    (f g n m : ℕ) → n < f → m < g → digits_before f n "" ≡ digits_before g m "" → n ≡ m
digits_before_inj zero g n m low low' same = absurd (omega (arith, low))
digits_before_inj (suc f) zero n m low low' same = absurd (omega (arith, low'))
digits_before_inj (suc f) (suc g) n m low low' same = elim (Bool-cases (ltb n 10)) [
  | inl small ↦ elim (Bool-cases (ltb m 10)) [
    | inl small' ↦
        digit_inj n m (ground (arith, small)) (ground (arith, small'))
          (sym (digits_before_small f n small) ∙ same ∙ digits_before_small g m small')
    | inr large ↦ absurd (
        omega (
          arith,
          ap count same,
          count_small f n small,
          count_large g m large,
          count_positive g (m / 10) (ground (arith, large, low')),
        ))
  ]
  | inr large ↦ elim (Bool-cases (ltb m 10)) [
    | inl small ↦ absurd (
        omega (
          arith,
          ap count same,
          count_small g m small,
          count_large f n large,
          count_positive f (n / 10) (ground (arith, large, low)),
        ))
    | inr large' ↦
        let (tens, units) =
          append_inj (sym (digits_before_large f n large) ∙ same ∙ digits_before_large g m large')
            (omega (arith, ap count same, count_large f n large, count_large g m large')) in
        let tens_same =
          digits_before_inj f g (n / 10) (m / 10) (ground (arith, large, low))
            (ground (arith, large', low')) tens in
        let units_same = digit_inj (n % 10) (m % 10) (omega arith) (omega arith) units in
        omega (arith, tens_same, units_same)
  ]
]

-- A template literal tells any two numbers apart.
pub show_number_inj : (n m : ℕ) → show_number n ≡ show_number m → n ≡ m
unfolding show_number
show_number_inj n m same = digits_before_inj (suc n) (suc m) n m (omega arith) (omega arith) same
