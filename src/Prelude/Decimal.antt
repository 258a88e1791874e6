-- ===== src/Prelude/Decimal.antt =====
-- Numbers in template literals: `${n}`, and `${x}` of an amount that the model keeps in cents.
pub mod Reading
use Prim.Native.Nat.{ℕ, zero, suc, ◌/◌, ◌%◌}
use Prim.Native.String.{String, ◌++◌}
use mathlib.Core.Path.{◌≡◌, refl}
use shop_microservices.Prelude.Tests.{ltb, if◌then◌else◌}

unfoldable pub digit : ℕ → String
digit zero = "0"
digit (suc zero) = "1"
digit (suc (suc zero)) = "2"
digit (suc (suc (suc zero))) = "3"
digit (suc (suc (suc (suc zero)))) = "4"
digit (suc (suc (suc (suc (suc zero))))) = "5"
digit (suc (suc (suc (suc (suc (suc zero)))))) = "6"
digit (suc (suc (suc (suc (suc (suc (suc zero))))))) = "7"
digit (suc (suc (suc (suc (suc (suc (suc (suc zero)))))))) = "8"
digit _ = "9"

-- The digits of `n` before `later`; a number has fewer digits than its successor counts.
unfoldable pub digits_before : ℕ → ℕ → String → String
unfolding digit
digits_before zero n later = later
digits_before (suc fuel) n later =
    let more = digits_before fuel (n / 10) (digit (n % 10) ++ later) in
    if ltb n 10 then digit n ++ later else more

unfoldable pub show_number : ℕ → String
unfolding digits_before
show_number n = digits_before (suc n) n ""

-- The fraction of a dollar as JavaScript prints it: no trailing zero.
unfoldable pub show_fraction : ℕ → ℕ → String
unfolding digit
show_fraction zero zero = ""
show_fraction tenths zero = "." ++ digit tenths
show_fraction tenths hundredths = "." ++ (digit tenths ++ digit hundredths)

unfoldable pub show_amount : ℕ → String
unfolding show_number show_fraction
show_amount cents = show_number (cents / 100) ++ show_fraction (cents % 100 / 10) (cents % 10)

-- `amount.toFixed(2)` of an amount in cents
unfoldable pub to_fixed : ℕ → String
unfolding show_number digit
to_fixed cents =
    show_number (cents / 100) ++ ("." ++ (digit (cents % 100 / 10) ++ digit (cents % 10)))

show_amounts : (show_amount 1250 ≡ "12.5") × (show_amount 7 ≡ "0.07") × (show_amount 9900 ≡ "99")
unfolding show_amount
show_amounts = (refl, refl, refl)
