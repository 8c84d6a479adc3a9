-- ===== src/Parser/Escape.antt =====
-- `unescape_path` of crates/syncplus-core/src/parser.rs. A path is kept as its text.
use sync_plus.Base.{
  Option, none, some, [], ◌∷◌, if◌then◌else◌, ◌==◌, contains, Result, ok, err, panicked, ◌>>=◌, ℕ,
  zero, suc, ◌+◌, ◌-◌, ◌*◌, leb, Text, nat_eq,
}
use sync_plus.Parser.Bytes.{between, is_utf8}

pub data ParseDiagnostic : Type 0 where
  invalid_utf8 invalid_itemized_record invalid_escape invalid_progress_record : ParseDiagnostic
  unrecognized_record truncated_record record_too_long output_too_large : ParseDiagnostic

abbrev pub hex_digit : ℕ → Option ℕ
hex_digit b =
    if between b'0' b'9' b
    then some (b - b'0')
    else if between b'a' b'f' b
    then some (b - b'a' + 10)
    else if between b'A' b'F' b
    then some (b - b'A' + 10)
    else none

abbrev hex_value : Option ℕ → Option ℕ → Result ParseDiagnostic (ℕ × ℕ)
hex_value (some high) (some low) = ok (high * 16 + low, 3)
hex_value _ _ = err invalid_escape

abbrev hex_escape : Text → Result ParseDiagnostic (ℕ × ℕ)
hex_escape (first ∷ second ∷ bs) = hex_value (hex_digit first) (hex_digit second)
hex_escape _ = err invalid_escape

-- The loop over at most three octal digits, with the value and the digits so far. The value is a
-- checked byte.
abbrev octal_escape : ℕ → ℕ → ℕ → Text → Result ParseDiagnostic (ℕ × ℕ)
octal_escape zero value digits bs = ok (value, digits)
octal_escape (suc room) value digits [] = ok (value, digits)
octal_escape (suc room) value digits (b ∷ bs) =
    let next = value * 8 + (b - b'0') in
    let rest = octal_escape room next (suc digits) bs in
    if between b'0' b'7' b
    then (if leb next 255 then rest else err invalid_escape)
    else ok (value, digits)

abbrev digits_read : Result ParseDiagnostic (ℕ × ℕ) → Result ParseDiagnostic (ℕ × ℕ)
digits_read (ok (value, zero)) = err invalid_escape
digits_read r = r

-- What stands after a backslash: the byte that it means, and the bytes that it takes.
abbrev pub escaped : Text → Result ParseDiagnostic (ℕ × ℕ)
escaped [] = err invalid_escape
escaped (b ∷ bs) =
    if b == b'\\'
    then ok (b'\\', 1)
    else if b == b'n'
    then ok (b'\n', 1)
    else if b == b'r'
    then ok (b'\r', 1)
    else if b == b't'
    then ok (b'\t', 1)
    else if b == b'x'
    then hex_escape bs
    else if between b'0' b'9' b
    then digits_read (octal_escape 3 0 0 (b ∷ bs))
    else err invalid_escape

abbrev pub next_byte : ℕ → Text → Result ParseDiagnostic (ℕ × ℕ)
next_byte b bs = if b == b'\\' then escaped bs else ok (b, 0)

-- The loop over the index. The first argument counts the bytes that the last escape has taken.
unfoldable pub decode : ℕ → Text → Result ParseDiagnostic Text
decode skip [] = ok []
decode (suc skip) (b ∷ bs) = decode skip bs
decode zero (b ∷ bs) = elim (next_byte b bs) [
  | ok (value, taken) ↦ decode taken bs >>= λ rest. ok (value ∷ rest)
  | err e ↦ err e
  | panicked ↦ panicked
]

abbrev checked : Text → Result ParseDiagnostic Text
checked decoded =
    if contains decoded 0
    then err invalid_escape
    else (if is_utf8 decoded then ok decoded else err invalid_utf8)

unfoldable pub unescape_path : Text → Result ParseDiagnostic Text
unescape_path encoded = decode 0 encoded >>= checked
