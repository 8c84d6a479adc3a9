-- ===== src/Base/Strings.antt =====
-- Rust's strings as their UTF-8 bytes: literals, and the tests of `char` and `str` on bytes. A test
-- for ASCII characters has the same answer on the bytes, since the bytes of other characters are
-- from 128 on.
use Prim.Native.Char.{code}
use Prim.Native.Nat.{ℕ}
use Prim.Native.String.{String}
use mathlib.Core.Bool.{Bool, false, ◌&&◌, ◌||◌}
use mathlib.Core.List.{[], ◌∷◌, ◌++◌}
use sync_plus.Base.Equality.{Text, leb, contains, nat_eq, ◌==◌, if◌then◌else◌}
use sync_plus.Base.Lists.{is_empty}

-- An ASCII literal's bytes. `String` has its own `[]` and `∷`.
abbrev pub codes : String → Text
codes String.[] = []
codes (String.◌∷◌ c s) = code c ∷ codes s

abbrev pub between : ℕ → ℕ → ℕ → Bool
between low high b = leb low b && leb b high

abbrev pub is_ascii_digit : ℕ → Bool
is_ascii_digit = between b'0' b'9'

abbrev pub is_ascii_alphabetic : ℕ → Bool
is_ascii_alphabetic b = between b'a' b'z' b || between b'A' b'Z' b

abbrev pub is_ascii_alphanumeric : ℕ → Bool
is_ascii_alphanumeric b = is_ascii_alphabetic b || is_ascii_digit b

-- `value.contains('\0')`.
abbrev pub contains_nul : Text → Bool
contains_nul text = contains text 0

-- The encoding of one character with the property White_Space.
abbrev is_white_space : Text → Bool
is_white_space (b ∷ []) = between 9 13 b || b == 32
is_white_space (a ∷ b ∷ []) = a == 0xC2 && (b == 0x85 || b == 0xA0)
is_white_space (a ∷ b ∷ c ∷ []) =
    a == 0xE1 && b == 0x9A && c == 0x80
    || a == 0xE2
      && (b == 0x80 && (between 0x80 0x8A c || between 0xA8 0xA9 c || c == 0xAF)
          || b == 0x81 && c == 0x9F)
    || a == 0xE3 && b == 0x80 && c == 0x80
is_white_space _ = false

-- The first bytes of such an encoding.
abbrev begins_white_space : Text → Bool
begins_white_space (a ∷ []) = a == 0xC2 || between 0xE1 0xE3 a
begins_white_space (a ∷ b ∷ []) =
    a == 0xE1 && b == 0x9A || a == 0xE2 && between 0x80 0x81 b || a == 0xE3 && b == 0x80
begins_white_space _ = false

abbrev is_blank_from : Text → Text → Bool
is_blank_from seen [] = is_empty seen
is_blank_from seen (b ∷ bs) =
    let character = seen ++ (b ∷ []) in
    let next = is_blank_from [] bs in
    let more = is_blank_from character bs in
    if is_white_space character then next else begins_white_space character && more

-- `value.trim().is_empty()`.
unfoldable pub is_blank : Text → Bool
is_blank text = is_blank_from [] text
