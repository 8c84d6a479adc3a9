-- ===== src/Base/Int64.antt =====
-- The checked arithmetic of `i64`: the exact result if it is in range.
use Prim.Native.Nat.{ℕ, ◌+◌, ◌-◌, ◌*◌, ◌/◌, ◌^◌, ◌≤◌, ◌<◌, suc, zero}
use mathlib.Core.Path.{◌≡◌}
use mathlib.Core.Bool.{Bool, true, false, not}
use mathlib.Core.Option.{Option, none, some}
use native.Mathlib.Omega.{arith}
use sync_plus.Base.Equality.{leb, ltb, if◌then◌else◌}
use sync_plus.Base.Int.{ℤ, pos, negsuc}

-- The number -n.
abbrev minus : ℕ → ℤ
minus zero = pos 0
minus (suc n) = negsuc n

-- m - n.
abbrev difference : ℕ → ℕ → ℤ
difference m n = if leb n m then pos (m - n) else negsuc (n - m - 1)

infixl 20 ◌+ℤ◌
abbrev ◌+ℤ◌ : ℤ → ℤ → ℤ
pos m +ℤ pos n = pos (m + n)
pos m +ℤ negsuc n = difference m (n + 1)
negsuc m +ℤ pos n = difference n (m + 1)
negsuc m +ℤ negsuc n = negsuc (m + n + 1)

abbrev negate : ℤ → ℤ
negate (pos n) = minus n
negate (negsuc n) = pos (n + 1)

abbrev times : ℤ → ℤ → ℤ
times (pos m) (pos n) = pos (m * n)
times (pos m) (negsuc n) = minus (m * (n + 1))
times (negsuc m) (pos n) = minus ((m + 1) * n)
times (negsuc m) (negsuc n) = pos ((m + 1) * (n + 1))

-- Division rounds towards zero.
abbrev quotient : ℤ → ℤ → Option ℤ
quotient x (pos zero) = none
quotient (pos m) (pos (suc n)) = some (pos (m / suc n))
quotient (negsuc m) (pos (suc n)) = some (minus ((m + 1) / suc n))
quotient (pos m) (negsuc n) = some (minus (m / (n + 1)))
quotient (negsuc m) (negsuc n) = some (pos ((m + 1) / (n + 1)))

abbrev in_range : ℤ → Option ℤ
in_range (pos n) = if ltb n (2 ^ 63) then some (pos n) else none
in_range (negsuc n) = if ltb n (2 ^ 63) then some (negsuc n) else none

abbrev pub checked_add : ℤ → ℤ → Option ℤ
checked_add x y = in_range (x +ℤ y)

abbrev pub checked_sub : ℤ → ℤ → Option ℤ
checked_sub x y = in_range (x +ℤ negate y)

abbrev pub checked_mul : ℤ → ℤ → Option ℤ
checked_mul x y = in_range (times x y)

abbrev pub checked_div : ℤ → ℤ → Option ℤ
checked_div x y = elim (quotient x y) [ none ↦ none | some q ↦ in_range q ]

abbrev pub is_negative : ℤ → Bool
is_negative (pos n) = false
is_negative (negsuc n) = true

abbrev pub int_le : ℤ → ℤ → Bool
int_le (pos m) (pos n) = leb m n
int_le (pos m) (negsuc n) = false
int_le (negsuc m) (pos n) = true
int_le (negsuc m) (negsuc n) = leb n m

abbrev pub int_lt : ℤ → ℤ → Bool
int_lt x y = not (int_le y x)

abbrev pub int_max : ℤ → ℤ → ℤ
int_max x y = if int_le x y then y else x

-- On the numbers from 0 on.
pub checked_add-pos : (m n : ℕ) → m + n < 2 ^ 63 → checked_add (pos m) (pos n) ≡ some (pos (m + n))
checked_add-pos m n h = ground arith

pub checked_sub-pos :
    (m n : ℕ) → n ≤ m → m < 2 ^ 63 → checked_sub (pos m) (pos n) ≡ some (pos (m - n))
checked_sub-pos m zero h k = ground arith
checked_sub-pos m (suc n) h k = ground arith

pub checked_mul-pos : (m n : ℕ) → m * n < 2 ^ 63 → checked_mul (pos m) (pos n) ≡ some (pos (m * n))
checked_mul-pos m n h = ground arith

pub checked_div-pos :
    (m n : ℕ) → 0 < n → m < 2 ^ 63 → checked_div (pos m) (pos n) ≡ some (pos (m / n))
checked_div-pos m zero h k = absurd (omega arith)
checked_div-pos m (suc n) h k = ground arith

pub int_lt-pos : (m n : ℕ) → m < n → int_lt (pos m) (pos n) ≡ true
int_lt-pos m n h = ground arith

-- A result is exact.
in_range-exact : (x : ℤ) {y : ℤ} → in_range x ≡ some y → y ≡ x
in_range-exact (pos n) h = ground arith
in_range-exact (negsuc n) h = ground arith

pub checked_add-exact : (m n : ℕ) {y : ℤ} → checked_add (pos m) (pos n) ≡ some y → y ≡ pos (m + n)
checked_add-exact m n h = in_range-exact (pos (m + n)) h

pub checked_mul-exact : (m n : ℕ) {y : ℤ} → checked_mul (pos m) (pos n) ≡ some y → y ≡ pos (m * n)
checked_mul-exact m n h = in_range-exact (pos (m * n)) h

pub checked_sub-exact :
    (m n : ℕ) {y : ℤ} → n ≤ m → checked_sub (pos m) (pos n) ≡ some y → y ≡ pos (m - n)
checked_sub-exact m zero k h = ground arith
checked_sub-exact m (suc n) k h = ground arith

pub checked_div-exact : (m n : ℕ) {y : ℤ} → checked_div (pos m) (pos n) ≡ some y → y ≡ pos (m / n)
checked_div-exact m zero h = cc
checked_div-exact m (suc n) h = in_range-exact (pos (m / suc n)) h
