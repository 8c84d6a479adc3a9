-- ===== src/Parser/Line.antt =====
-- `parse_line` of crates/syncplus-core/src/parser.rs and what it calls.
use sync_plus.Base.{
  Bool, false, ◌&&◌, ◌||◌, not, Option, none, some, List, [], ◌∷◌, any, all, is_empty, length,
  contains, if◌then◌else◌, ◌==◌, Result, ok, err, panicked, ℕ, ltb, Text, text_eq, nat_eq,
}
pub use sync_plus.Parser.Escape.{
  ParseDiagnostic, invalid_utf8, invalid_itemized_record, invalid_escape, invalid_progress_record,
  unrecognized_record, truncated_record, record_too_long, output_too_large,
}
use sync_plus.Parser.Escape.{unescape_path}
use sync_plus.Parser.Bytes.{
  codes, is_ascii_whitespace, starts_with, drop_while, split_at_first, strip_last, is_utf8,
  parse_unsigned, next_field, without_byte,
}

pub record ItemizedRecord : Type 0 where
  pub code : Text
  pub path : Text

pub record ProgressRecord : Type 0 where
  pub completed_bytes : ℕ
  pub percent : ℕ

pub data ParsedOutput : Type 0 where
  itemized : ItemizedRecord → ParsedOutput
  progress : ProgressRecord → ParsedOutput
  diagnostic : ParseDiagnostic → ParsedOutput

abbrev action_codes : Text
action_codes = codes "<>ch.*"

abbrev pub looks_like_itemized_record : Text → Bool
looks_like_itemized_record [] = false
looks_like_itemized_record (b ∷ bs) =
    contains action_codes b || starts_with (b ∷ bs) (codes "*deleting")

abbrev is_code : Text → Bool
is_code (action ∷ type ∷ flags) =
    (length flags == 9)
    && contains action_codes action
    && contains (codes "fdLDS") type
    && all (contains (codes ".+cstpogunax?")) flags
is_code _ = false

unfoldable pub split_itemized_line : Text → Option (Text × Text)
split_itemized_line line =
    let (code, rest) = split_at_first is_ascii_whitespace line in
    let path = drop_while is_ascii_whitespace rest in
    if is_empty rest
    then none
    else if not (is_utf8 code)
    then none
    else if not (is_code code)
    then none
    else if is_empty path
    then none
    else some (code, path)

abbrev info_prefixes : List Text
info_prefixes =
    codes "building file list"
    ∷ codes "created directory "
    ∷ codes "sent "
    ∷ codes "total size is "
    ∷ codes "delta-transmission enabled"
    ∷ codes "Number of files: "
    ∷ codes "Number of created files: "
    ∷ codes "Number of deleted files: "
    ∷ codes "Number of regular files transferred: "
    ∷ codes "Total file size: "
    ∷ codes "Total transferred file size: "
    ∷ codes "Literal data: "
    ∷ codes "Matched data: "
    ∷ codes "File list size: "
    ∷ codes "File list generation time: "
    ∷ codes "File list transfer time: "
    ∷ codes "Total bytes sent: "
    ∷ codes "Total bytes received: "
    ∷ codes "sent_bytes="
    ∷ codes "received_bytes="
    ∷ []

unfoldable pub is_known_rsync_info : Text → Bool
is_known_rsync_info line =
    (line == codes "sending incremental file list")
    || (line == codes "receiving incremental file list")
    || any (starts_with line) info_prefixes

abbrev progress_record : Option ℕ → Option ℕ → Option ProgressRecord
progress_record (some completed_bytes) (some percent) =
    if ltb 100 percent
    then none
    else some (record { completed_bytes = completed_bytes; percent = percent })
progress_record _ _ = none

abbrev percent_of : Option (Text × Text) → Option ℕ
percent_of none = none
percent_of (some (field, rest)) = elim (strip_last b'%' field) [
  | none ↦ none
  | some digits ↦ parse_unsigned 255 digits
]

unfoldable pub parse_progress : Text → Option ProgressRecord
parse_progress line = if not (is_utf8 line) then none else elim (next_field line) [
  | none ↦ none
  | some (bytes, rest) ↦
      progress_record (parse_unsigned 18_446_744_073_709_551_615 (without_byte b',' bytes))
        (percent_of (next_field rest))
]

abbrev item_event : Text → Result ParseDiagnostic Text → List ParsedOutput
item_event code (ok path) =
    if is_empty path
    then diagnostic invalid_itemized_record ∷ []
    else itemized (record { code = code; path = path }) ∷ []
item_event code (err d) = diagnostic d ∷ []
item_event code panicked = []

abbrev itemized_events : Option (Text × Text) → List ParsedOutput
itemized_events none = diagnostic invalid_itemized_record ∷ []
itemized_events (some (code, encoded_path)) = item_event code (unescape_path encoded_path)

abbrev progress_events : Option ProgressRecord → List ParsedOutput
progress_events none = diagnostic invalid_progress_record ∷ []
progress_events (some r) = progress r ∷ []

abbrev stripped_line : Text → Text
stripped_line line = elim (strip_last b'\r' line) [ none ↦ line | some rest ↦ rest ]

abbrev line_events : Text → List ParsedOutput
line_events line =
    if is_empty line
    then []
    else if is_known_rsync_info line
    then []
    else if looks_like_itemized_record line
    then itemized_events (split_itemized_line line)
    else if contains line b'%'
    then progress_events (parse_progress line)
    else diagnostic unrecognized_record ∷ []

unfoldable pub parse_line : Text → List ParsedOutput
parse_line line = line_events (stripped_line line)
