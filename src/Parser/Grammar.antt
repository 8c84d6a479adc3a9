-- ===== src/Parser/Grammar.antt =====
-- The escapes of `unescape_path` of crates/syncplus-core/src/parser.rs as a grammar.
use sync_plus.Base.{
  ◌≡◌, refl, true, false, some, List, [], ◌∷◌, ◌==◌, contains, ok, arith, ℕ, ◌+◌, ◌*◌, ◌≤◌, Text,
  nat_eq,
}
use sync_plus.Parser.Bytes.{is_utf8}
use sync_plus.Parser.Escape.{hex_digit, next_byte, decode, unescape_path}

-- A hexadecimal digit, in either case, and its value.
pub data IsHexDigit : ℕ → ℕ → Type 0 where
  decimal : (d : ℕ) → d ≤ 9 → IsHexDigit (b'0' + d) d
  lower : (d : ℕ) → d ≤ 5 → IsHexDigit (b'a' + d) (10 + d)
  upper : (d : ℕ) → d ≤ 5 → IsHexDigit (b'A' + d) (10 + d)

abbrev octal_value : ℕ → ℕ → ℕ → ℕ
octal_value a b c = a * 64 + b * 8 + c

-- An encoded text and what it means: bytes that stand for themselves, and the escapes.
pub data Encodes : List ℕ → List ℕ → Type 0 where
  end : Encodes [] []
  plain :
      {bs ds : List ℕ} (b : ℕ) → (b == b'\\') ≡ false → Encodes bs ds → Encodes (b ∷ bs) (b ∷ ds)
  backslash : {bs ds : List ℕ} → Encodes bs ds → Encodes (b'\\' ∷ b'\\' ∷ bs) (b'\\' ∷ ds)
  newline : {bs ds : List ℕ} → Encodes bs ds → Encodes (b'\\' ∷ b'n' ∷ bs) (b'\n' ∷ ds)
  carriage_return : {bs ds : List ℕ} → Encodes bs ds → Encodes (b'\\' ∷ b'r' ∷ bs) (b'\r' ∷ ds)
  tab : {bs ds : List ℕ} → Encodes bs ds → Encodes (b'\\' ∷ b't' ∷ bs) (b'\t' ∷ ds)
  hex :
      {bs ds : List ℕ} (h l high low : ℕ)
      → IsHexDigit h high
      → IsHexDigit l low
      → Encodes bs ds
      → Encodes (b'\\' ∷ b'x' ∷ h ∷ l ∷ bs) ((high * 16 + low) ∷ ds)
  octal :
      {bs ds : List ℕ} (a b c : ℕ)
      → a ≤ 7
      → b ≤ 7
      → c ≤ 7
      → octal_value a b c ≤ 255
      → Encodes bs ds
      → Encodes (b'\\' ∷ (b'0' + a) ∷ (b'0' + b) ∷ (b'0' + c) ∷ bs) (octal_value a b c ∷ ds)

-- A round of the loop whose byte and length are known.
decode_step :
    (b value taken : ℕ) (bs rest ds : Text)
    → next_byte b bs ≡ ok (value, taken)
    → decode taken bs ≡ decode 0 rest
    → decode 0 rest ≡ ok ds
    → decode 0 (b ∷ bs) ≡ ok (value ∷ ds)
unfolding decode
decode_step b value taken bs rest ds h k e = ground (arith, h, k, e)

hex_digit_lem : {h value : ℕ} → IsHexDigit h value → hex_digit h ≡ some value
hex_digit_lem (decimal d small) = ground arith
hex_digit_lem (lower d small) = ground arith
hex_digit_lem (upper d small) = ground arith

octal_lem :
    (a b c : ℕ) (bs : Text)
    → a ≤ 7
    → b ≤ 7
    → c ≤ 7
    → octal_value a b c ≤ 255
    → next_byte b'\\' ((b'0' + a) ∷ (b'0' + b) ∷ (b'0' + c) ∷ bs) ≡ ok (octal_value a b c, 3)
octal_lem a b c bs h k l small = ground arith

decode_lem : {bs ds : List ℕ} → Encodes bs ds → decode 0 bs ≡ ok ds
unfolding decode nat_eq
decode_lem end = refl
decode_lem (plain {bs} {ds} b n e) = decode_step b b 0 bs bs ds (ground arith) refl (decode_lem e)
decode_lem (backslash {bs} {ds} e) =
    decode_step b'\\' b'\\' 1 (b'\\' ∷ bs) bs ds refl refl (decode_lem e)
decode_lem (newline {bs} {ds} e) =
    decode_step b'\\' b'\n' 1 (b'n' ∷ bs) bs ds refl refl (decode_lem e)
decode_lem (carriage_return {bs} {ds} e) =
    decode_step b'\\' b'\r' 1 (b'r' ∷ bs) bs ds refl refl (decode_lem e)
decode_lem (tab {bs} {ds} e) = decode_step b'\\' b'\t' 1 (b't' ∷ bs) bs ds refl refl (decode_lem e)
decode_lem (hex {bs} {ds} h l high low p q e) =
    decode_step b'\\' (high * 16 + low) 3 (b'x' ∷ h ∷ l ∷ bs) bs ds
      (rw (hex_digit_lem p, hex_digit_lem q) refl) refl (decode_lem e)
decode_lem (octal {bs} {ds} a b c p q r s e) =
    decode_step b'\\' (octal_value a b c) 3 ((b'0' + a) ∷ (b'0' + b) ∷ (b'0' + c) ∷ bs) bs ds
      (octal_lem a b c bs p q r s) refl (decode_lem e)

-- A text that the grammar allows is decoded to what it means, if that is well-formed UTF-8 with no
-- NUL byte: a byte other than a backslash is itself, `\\`, `\n`, `\r` and `\t` are the usual ones,
-- `\x` takes two hexadecimal digits of either case, and three octal digits give at most 255.
pub unescape_path-Encodes :
    (bs ds : Text)
    → Encodes bs ds
    → contains ds 0 ≡ false
    → is_utf8 ds ≡ true
    → unescape_path bs ≡ ok ds
unfolding unescape_path
unescape_path-Encodes bs ds e n u = rw (decode_lem e, n, u) refl
