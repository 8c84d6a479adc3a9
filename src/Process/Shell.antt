-- ===== src/Process/Shell.antt =====
-- The words that process.rs writes for a shell: `encode_remote_shell_word`, and how a POSIX shell
-- reads a word back (2.2.1 and 2.2.2 of its grammar: a backslash, and single quotes).
use sync_plus.Base.{
  Bool, true, false, Bool-cases, inl, inr, contains, Option, none, some, [], ◌∷◌, ◌++◌, Text,
  if◌then◌else◌, ◌==◌, nat_eq, ◌≡◌, refl, arith, ℕ, ◌-◌, ap, ◌∙◌,
}
use sync_plus.Parser.Bytes.{between, utf8_start, is_utf8_from, is_utf8}
use sync_plus.Base.Strings.{codes}

-- U+FFFD.
abbrev replacement : Text
replacement = 0xEF ∷ 0xBF ∷ 0xBD ∷ []

-- `String::from_utf8_lossy`: each sequence that is not well-formed, as far as it could have been
-- one, is replaced. `pending` are the bytes of the sequence that is being read.
abbrev lossy_from : Option (ℕ × ℕ × ℕ) → Text → Text → Text
lossy_from none pending [] = []
lossy_from (some _) pending [] = replacement
lossy_from none pending (b ∷ bs) = elim (utf8_start b) [
  | none ↦ replacement ++ lossy_from none [] bs
  | some none ↦ b ∷ lossy_from none [] bs
  | some (some s) ↦ lossy_from (some s) (b ∷ []) bs
]
lossy_from (some (low, high, left)) pending (b ∷ bs) =
    let ended = pending ++ (b ∷ lossy_from none [] bs) in
    let continued = lossy_from (some (0x80, 0xBF, left - 1)) (pending ++ (b ∷ [])) bs in
    let restarted : Text = elim (utf8_start b) [
      | none ↦ replacement ++ lossy_from none [] bs
      | some none ↦ b ∷ lossy_from none [] bs
      | some (some s) ↦ lossy_from (some s) (b ∷ []) bs
    ] in
    if between low high b
    then (if left == 0 then ended else continued)
    else replacement ++ restarted

-- `Path::to_string_lossy`.
unfoldable pub to_string_lossy : Text → Text
to_string_lossy path = lossy_from none [] path

-- The characters between the outer quotes.
unfoldable pub encode_characters : Text → Text
encode_characters [] = []
encode_characters (b ∷ bs) =
    let rest = encode_characters bs in if b == b'\'' then codes "'\\''" ++ rest else b ∷ rest

unfoldable pub encode_remote_shell_word : Text → Text
unfolding encode_characters to_string_lossy
encode_remote_shell_word path = (b'\'' ∷ encode_characters (to_string_lossy path)) ++ codes "'"

pub data Quoting : Type 0 where
  plain escaped quoted : Quoting

abbrev with_byte : ℕ → Option Text → Option Text
with_byte b none = none
with_byte b (some bs) = some (b ∷ bs)

-- The bytes that end an unquoted word, or mean more than themselves in one.
abbrev is_special : ℕ → Bool
is_special b = contains (codes " \t\n|&;<>()$`\"*?[#~=%{}!") b

-- The one word that a shell reads, if the text is one word without expansions.
unfoldable pub shell_word : Quoting → Text → Option Text
shell_word plain [] = some []
shell_word escaped [] = none
shell_word quoted [] = none
shell_word plain (b ∷ bs) =
    let open_quote = shell_word quoted bs in
    let escape = shell_word escaped bs in
    let next = shell_word plain bs in
    if b == b'\''
    then open_quote
    else if b == b'\\'
    then escape
    else if is_special b
    then none
    else with_byte b next
shell_word escaped (b ∷ bs) =
    let next = shell_word plain bs in if b == b'\n' then next else with_byte b next
shell_word quoted (b ∷ bs) =
    let closed = shell_word plain bs in
    let next = shell_word quoted bs in if b == b'\'' then closed else with_byte b next

shell_word-quote :
    (rest : Text)
    → shell_word quoted (codes "'\\''" ++ rest) ≡ with_byte b'\'' (shell_word quoted rest)
unfolding shell_word nat_eq
shell_word-quote rest = refl

shell_word-encode_characters :
    (path : Text) → shell_word quoted (encode_characters path ++ codes "'") ≡ some path
unfolding shell_word encode_characters nat_eq
shell_word-encode_characters [] = refl
shell_word-encode_characters (b ∷ bs) = ground (arith, shell_word-encode_characters bs)

append_assoc : (bs : Text) (b : ℕ) (cs : Text) → (bs ++ (b ∷ [])) ++ cs ≡ bs ++ (b ∷ cs)
append_assoc [] b cs = refl
append_assoc (a ∷ bs) b cs = ap (λ rest. a ∷ rest) (append_assoc bs b cs)

-- Well-formed text is kept, after the bytes of the sequence that is being read.
lossy_from-is_utf8 :
    (bs : Text)
    → (is_utf8_from none bs ≡ true → lossy_from none [] bs ≡ bs)
      × ((low high left : ℕ) (pending : Text)
          → is_utf8_from (some (low, high, left)) bs ≡ true
          → lossy_from (some (low, high, left)) pending bs ≡ pending ++ bs)
lossy_from-is_utf8 [] = (λ h. refl, λ low high left pending h. ground (arith, h))
lossy_from-is_utf8 (b ∷ bs) =
    let (whole, part) = lossy_from-is_utf8 bs in
    (
      started whole part (utf8_start b),
      λ low high left pending h. elim (Bool-cases (between low high b)) [
        | inr other ↦ ground (arith, h, other)
        | inl inside ↦ elim (Bool-cases (left == 0)) [
          | inl last ↦
              rw (inside, last)
                (ap (λ rest. pending ++ (b ∷ rest)) (whole (ground (arith, h, inside, last))))
          | inr more ↦
              rw (inside, more)
                (part 0x80 0xBF (left - 1) (pending ++ (b ∷ [])) (ground (arith, h, inside, more))
                  ∙ append_assoc pending b bs)
        ]
      ],
    )
  where
    started :
        (is_utf8_from none bs ≡ true → lossy_from none [] bs ≡ bs)
        → ((low high left : ℕ) (pending : Text)
            → is_utf8_from (some (low, high, left)) bs ≡ true
            → lossy_from (some (low, high, left)) pending bs ≡ pending ++ bs)
        → (next : Option (Option (ℕ × ℕ × ℕ)))
        → elim next as (λ o. Bool) [ none ↦ false | some s ↦ is_utf8_from s bs ] ≡ true
        → elim next as (λ o. Text) [
          | none ↦ replacement ++ lossy_from none [] bs
          | some none ↦ b ∷ lossy_from none [] bs
          | some (some s) ↦ lossy_from (some s) (b ∷ []) bs
        ]
          ≡ b ∷ bs
    started whole part none h = ground (arith, h)
    started whole part (some none) h = ap (λ rest. b ∷ rest) (whole h)
    started whole part (some (some (low, high, left))) h = part low high left (b ∷ []) h

-- A path that is well-formed UTF-8 keeps its bytes.
to_string_lossy-is_utf8 : (path : Text) → is_utf8 path ≡ true → to_string_lossy path ≡ path
unfolding to_string_lossy
to_string_lossy-is_utf8 path h = (lossy_from-is_utf8 path).0 h

-- What the shell of the other peer reads from an encoded path is the path after `to_string_lossy`.
shell_word-to_string_lossy :
    (path : Text) → shell_word plain (encode_remote_shell_word path) ≡ some (to_string_lossy path)
unfolding shell_word encode_remote_shell_word nat_eq
shell_word-to_string_lossy path = shell_word-encode_characters (to_string_lossy path)

-- What the shell of the other peer reads from an encoded path is the path, byte for byte, if the
-- path is well-formed UTF-8; it may hold quotes, spaces and anything else that a shell expands.
pub shell_word-encode_remote_shell_word :
    (path : Text)
    → is_utf8 path ≡ true
    → shell_word plain (encode_remote_shell_word path) ≡ some path
shell_word-encode_remote_shell_word path h =
    shell_word-to_string_lossy path ∙ ap some (to_string_lossy-is_utf8 path h)
