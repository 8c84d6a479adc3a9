-- ===== src/Parser/Bytes.antt =====
-- Bytes and byte strings, as crates/syncplus-core/src/parser.rs uses Rust's standard library.
use sync_plus.Base.Decimal.{digits_value}
use sync_plus.Base.{
  Bool, true, false, ◌&&◌, ◌||◌, not, Option, none, some, [], ◌∷◌, is_empty, if◌then◌else◌, ◌==◌, ℕ,
  ◌-◌, leb, Text, nat_eq, filter,
}
pub use sync_plus.Base.Strings.{codes, between}

-- `u8::is_ascii_whitespace`.
abbrev pub is_ascii_whitespace : ℕ → Bool
is_ascii_whitespace b = b == b' ' || b == b'\t' || b == b'\n' || b == 12 || b == b'\r'

abbrev pub starts_with : Text → Text → Bool
starts_with bs [] = true
starts_with [] (p ∷ ps) = false
starts_with (b ∷ bs) (p ∷ ps) = b == p && starts_with bs ps

abbrev pub drop_while : (ℕ → Bool) → Text → Text
drop_while p [] = []
drop_while p (b ∷ bs) = let rest = drop_while p bs in if p b then rest else b ∷ bs

-- The bytes before the first that passes, and those from it on.
abbrev pub split_at_first : (ℕ → Bool) → Text → Text × Text
split_at_first p [] = ([], [])
split_at_first p (b ∷ bs) =
    let (before, rest) = split_at_first p bs in if p b then ([], b ∷ bs) else (b ∷ before, rest)

-- One suffix byte taken off, as `strip_suffix` does.
abbrev pub strip_last : ℕ → Text → Option Text
strip_last c [] = none
strip_last c (b ∷ []) = if b == c then some [] else none
strip_last c (b ∷ d ∷ bs) = elim (strip_last c (d ∷ bs)) [
  | none ↦ none
  | some rest ↦ some (b ∷ rest)
]

-- A byte that starts a well-formed sequence of the Unicode standard, table 3-7: the bounds of the
-- next continuation byte and the number of bytes still to come after it, or nothing for ASCII.
abbrev pub utf8_start : ℕ → Option (Option (ℕ × ℕ × ℕ))
utf8_start b =
    if leb b 0x7F
    then some none
    else if between 0xC2 0xDF b
    then some (some (0x80, 0xBF, 0))
    else if b == 0xE0
    then some (some (0xA0, 0xBF, 1))
    else if b == 0xED
    then some (some (0x80, 0x9F, 1))
    else if between 0xE1 0xEF b
    then some (some (0x80, 0xBF, 1))
    else if b == 0xF0
    then some (some (0x90, 0xBF, 2))
    else if between 0xF1 0xF3 b
    then some (some (0x80, 0xBF, 2))
    else if b == 0xF4
    then some (some (0x80, 0x8F, 2))
    else none

-- `std::str::from_utf8` accepts the well-formed sequences. `left` counts as in `utf8_start`.
abbrev pub is_utf8_from : Option (ℕ × ℕ × ℕ) → Text → Bool
is_utf8_from none [] = true
is_utf8_from (some _) [] = false
is_utf8_from (some (low, high, left)) (b ∷ bs) =
    between low high b && is_utf8_from (if left == 0 then none else some (0x80, 0xBF, left - 1)) bs
is_utf8_from none (b ∷ bs) = elim (utf8_start b) [
  | none ↦ false
  | some state ↦ is_utf8_from state bs
]

abbrev pub is_utf8 : Text → Bool
is_utf8 bs = is_utf8_from none bs

abbrev at_most : ℕ → Option ℕ → Option ℕ
at_most limit none = none
at_most limit (some n) = if leb n limit then some n else none

-- `str::parse` to an unsigned integer: one `+` may lead, then at least one digit, and the value fits.
abbrev pub parse_unsigned : ℕ → Text → Option ℕ
parse_unsigned limit [] = none
parse_unsigned limit (b ∷ []) = at_most limit (digits_value 0 (b ∷ []))
parse_unsigned limit (b ∷ c ∷ bs) =
    at_most limit (if b == b'+' then digits_value 0 (c ∷ bs) else digits_value 0 (b ∷ c ∷ bs))

-- One step of `split_ascii_whitespace`: the next field and what follows it.
abbrev pub next_field : Text → Option (Text × Text)
next_field bs =
    let (field, rest) = split_at_first is_ascii_whitespace (drop_while is_ascii_whitespace bs) in
    if is_empty field then none else some (field, rest)

abbrev pub without_byte : ℕ → Text → Text
without_byte c bs = filter (λ b. not (b == c)) bs
