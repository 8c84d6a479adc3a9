-- ===== src/Base/Decimal.antt =====
-- Decimal texts: `format!("{n}")` of an unsigned integer, and its reading back.
use Prim.Native.Nat.{ℕ, zero, suc, ◌+◌, ◌-◌, ◌*◌, ◌/◌, ◌%◌, ◌<◌}
use mathlib.Core.Path.{◌≡◌}
use mathlib.Core.Option.{Option, none, some}
use mathlib.Core.List.{[], ◌∷◌}
use native.Mathlib.Omega.{arith}
use sync_plus.Base.Equality.{Text, ltb, if◌then◌else◌}
use sync_plus.Base.Strings.{is_ascii_digit}

abbrev pub digits_value : ℕ → Text → Option ℕ
digits_value value [] = some value
digits_value value (b ∷ bs) =
    let rest = digits_value (value * 10 + (b - b'0')) bs in if is_ascii_digit b then rest else none

-- The last digit first; the fuel is the number of digits still allowed.
unfoldable decimal_from : ℕ → ℕ → Text → Text
decimal_from zero n shown = shown
decimal_from (suc fuel) n shown =
    let more = decimal_from fuel (n / 10) ((b'0' + n % 10) ∷ shown) in
    if ltb n 10 then (b'0' + n) ∷ shown else more

unfoldable pub decimal : ℕ → Text
unfolding decimal_from
decimal n = decimal_from (suc n) n []

digits_value-decimal_from :
    (fuel n : ℕ) (shown : Text)
    → n < fuel
    → digits_value 0 (decimal_from fuel n shown) ≡ digits_value n shown
unfolding decimal_from
digits_value-decimal_from zero n shown h = absurd (omega arith)
digits_value-decimal_from (suc fuel) n shown h =
    ground (arith, digits_value-decimal_from fuel (n / 10) ((b'0' + n % 10) ∷ shown))

-- The fuel is enough: the digits shown are those of the number.
pub digits_value-decimal : (n : ℕ) → digits_value 0 (decimal n) ≡ some n
unfolding decimal
digits_value-decimal n = digits_value-decimal_from (suc n) n [] (omega arith)
