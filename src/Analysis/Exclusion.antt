-- ===== src/Analysis/Exclusion.antt =====
-- Which paths an exclusion matches (`matches_exclusion` of analysis.rs), and which names belong to
-- SyncPlus itself.
use sync_plus.Base.{
  ℕ, ◌+◌, ◌-◌, ◌*◌, Bool, false, ◌&&◌, ◌||◌, Option, none, some, List, [], ◌∷◌, ◌++◌, Text, any,
  contains, is_empty, is_some_and, if◌then◌else◌, ◌==◌, ◌/=◌, leb, nat_eq,
}
use sync_plus.Base.Strings.{codes, between}
use sync_plus.Path.{Component, root_dir, cur_dir, parent_dir, normal, FilePath}
use sync_plus.Path.Parse.{last_name, ends_with_separator}
use sync_plus.Model.{ItemType, directory, type_eq}
use sync_plus.Parser.Bytes.{starts_with}
use sync_plus.Analysis.Wildcard.{Characters, wildcard_match}

-- A character of several bytes that is being read: the value so far, the bounds of the next byte, and
-- how many bytes come after that one.
record Partial : Type 0 where
  value : ℕ
  low : ℕ
  high : ℕ
  left : ℕ

abbrev partial_of : ℕ → ℕ → ℕ → ℕ → Partial
partial_of value low high left = record { value = value; low = low; high = high; left = left }

-- U+FFFD, which stands for bytes that are no UTF-8.
abbrev replacement : ℕ
replacement = 0xFFFD

abbrev leads : ℕ → Option Partial
leads b =
    if between 0xC2 0xDF b
    then some (partial_of (b - 0xC0) 0x80 0xBF 0)
    else if b == 0xE0
    then some (partial_of 0 0xA0 0xBF 1)
    else if b == 0xED
    then some (partial_of 13 0x80 0x9F 1)
    else if between 0xE1 0xEF b
    then some (partial_of (b - 0xE0) 0x80 0xBF 1)
    else if b == 0xF0
    then some (partial_of 0 0x90 0xBF 2)
    else if between 0xF1 0xF3 b
    then some (partial_of (b - 0xF0) 0x80 0xBF 2)
    else if b == 0xF4
    then some (partial_of 4 0x80 0x8F 2)
    else none

-- What a first byte gives: a character, or the begin of one.
abbrev begin_character : ℕ → Characters × Option Partial
begin_character b =
    if leb b 0x7F
    then (b ∷ [], none)
    else elim (leads b) [ none ↦ (replacement ∷ [], none) | some p ↦ ([], some p) ]

abbrev continue_character : Partial → ℕ → Characters × Option Partial
continue_character p b =
    let value = p.value * 64 + (b - 0x80) in
    if between p.low p.high b
    then (if p.left == 0
        then (value ∷ [], none)
        else ([], some (partial_of value 0x80 0xBF (p.left - 1))))
    else (replacement ∷ (begin_character b).0, (begin_character b).1)

abbrev next_character : Option Partial → ℕ → Characters × Option Partial
next_character none b = begin_character b
next_character (some p) b = continue_character p b

abbrev characters_from : Option Partial → Text → Characters
characters_from none [] = []
characters_from (some p) [] = replacement ∷ []
characters_from state (b ∷ bs) =
    let (found, next) = next_character state b in found ++ characters_from next bs

-- The characters of `to_string_lossy`; of a `String` they are its `chars`.
unfoldable pub characters : Text → Characters
characters text = characters_from none text

-- `is_syncplus_internal_artifact`.
unfoldable pub is_syncplus_internal_artifact : Text → Bool
unfolding characters
is_syncplus_internal_artifact name =
    starts_with (characters name) (codes ".syncplus-partial-")
    || starts_with (characters name) (codes ".syncplus-temporary-")
    || starts_with (characters name) (codes ".syncplus-previous-")

-- `Component::as_os_str`.
abbrev as_os_str : Component → Text
as_os_str root_dir = codes "/"
as_os_str cur_dir = codes "."
as_os_str parent_dir = codes ".."
as_os_str (normal name) = name

abbrev joined : List Component → Characters
joined [] = []
joined (c ∷ []) = characters (as_os_str c)
joined (c ∷ d ∷ cs) = characters (as_os_str c) ++ (b'/' ∷ joined (d ∷ cs))

-- `path_for_matching`.
abbrev path_for_matching : FilePath → Characters
path_for_matching path = joined path.components

-- `trim_end_matches('/')`.
abbrev trim_separators : Text → Text
trim_separators [] = []
trim_separators (b ∷ bs) =
    let rest = trim_separators bs in if is_empty rest && b == b'/' then [] else b ∷ rest

abbrev matches_component : Text → Component → Bool
matches_component pattern c = wildcard_match (characters pattern) (characters (as_os_str c))

-- The last tests of `matches_exclusion`, on the pattern without its final separators.
abbrev matches_trimmed : FilePath → Bool → Text → Bool
matches_trimmed path directory_pattern pattern =
    if contains pattern b'/'
    then wildcard_match (characters pattern) (path_for_matching path)
    else if directory_pattern
    then any (matches_component pattern) path.components
    else is_some_and (last_name path.components)
        (λ name. wildcard_match (characters pattern) (characters name))

unfoldable pub matches_exclusion : FilePath → ItemType → Text → Bool
unfolding characters wildcard_match
matches_exclusion path item_type pattern =
    let directory_pattern = ends_with_separator pattern in
    let trimmed = trim_separators pattern in
    if is_empty trimmed
    then false
    else if directory_pattern && item_type /= directory
    then false
    else matches_trimmed path directory_pattern trimmed
