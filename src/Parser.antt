-- ===== src/Parser.antt =====
-- The incremental parser of crates/syncplus-core/src/parser.rs: the bytes of rsync's output, cut
-- into lines, with bounds on a line and on the whole output.
pub mod Bytes
pub mod Escape
pub mod Line
pub mod Chunks
pub mod Grammar
pub mod Bounded
pub mod Lines
pub mod Reference
use sync_plus.Base.{
  Bool, true, false, ◌&&◌, not, List, [], ◌∷◌, ◌++◌, length, is_empty, if◌then◌else◌, ◌==◌, ℕ, ◌+◌,
  ◌-◌, ◌^◌, max, ltb, leb, Text, nat_eq,
}
use sync_plus.Parser.Line.{
  ParseDiagnostic, truncated_record, record_too_long, output_too_large, ItemizedRecord,
  ProgressRecord, ParsedOutput, itemized, progress, diagnostic, parse_line,
}

pub record ParsedTransferOutput : Type 0 where
  pub itemized : List ItemizedRecord
  pub progress : List ProgressRecord
  pub diagnostics : List ParseDiagnostic

abbrev pub no_output : ParsedTransferOutput
no_output = record { itemized = []; progress = []; diagnostics = [] }

abbrev pub push : ParsedTransferOutput → ParsedOutput → ParsedTransferOutput
push o (itemized r) = record {
  itemized = o.itemized ++ (r ∷ []);
  progress = o.progress;
  diagnostics = o.diagnostics;
}
push o (progress r) = record {
  itemized = o.itemized;
  progress = o.progress ++ (r ∷ []);
  diagnostics = o.diagnostics;
}
push o (diagnostic d) = record {
  itemized = o.itemized;
  progress = o.progress;
  diagnostics = o.diagnostics ++ (d ∷ []);
}

abbrev pub push_all : ParsedTransferOutput → List ParsedOutput → ParsedTransferOutput
push_all o [] = o
push_all o (e ∷ es) = push_all (push o e) es

-- The limits that a parser is made with.
pub record Limits : Type 0 where
  pub max_record_bytes : ℕ
  pub max_output_records : ℕ
  pub max_output_bytes : ℕ

pub record TransferOutputParser : Type 0 where
  pub buffer : Text
  pub discarding_oversized_record : Bool
  pub limits : Limits
  pub output_record_count : ℕ
  pub output_byte_count : ℕ
  pub output_limit_reached : Bool

abbrev pub default_limits : Limits
default_limits = record {
  max_record_bytes = 1_048_576;
  max_output_records = 1_000_000;
  max_output_bytes = 67_108_864;
}

abbrev pub with_output_limits : ℕ → ℕ → ℕ → TransferOutputParser
with_output_limits record_bytes records bytes = record {
  buffer = [];
  discarding_oversized_record = false;
  limits = record {
    max_record_bytes = max record_bytes 1;
    max_output_records = max records 1;
    max_output_bytes = max bytes 1;
  };
  output_record_count = 0;
  output_byte_count = 0;
  output_limit_reached = false;
}

abbrev pub new_parser : TransferOutputParser
new_parser =
    with_output_limits default_limits.max_record_bytes default_limits.max_output_records
      default_limits.max_output_bytes

-- `usize::saturating_add` on 64 bits.
abbrev pub saturating_add : ℕ → ℕ → ℕ
saturating_add a b = if ltb (a + b) (2 ^ 64) then a + b else 2 ^ 64 - 1

-- The mutable fields that `append_line` changes: the two counts and the flag.
abbrev pub counted : TransferOutputParser → ℕ → ℕ → Bool → TransferOutputParser
counted p records bytes reached = record {
  buffer = p.buffer;
  discarding_oversized_record = p.discarding_oversized_record;
  limits = p.limits;
  output_record_count = records;
  output_byte_count = bytes;
  output_limit_reached = reached;
}

abbrev pub limit_reached : TransferOutputParser → TransferOutputParser
limit_reached p = counted p p.output_record_count p.output_byte_count true

abbrev pub buffered : TransferOutputParser → Text → Bool → TransferOutputParser
buffered p buffer discarding = record {
  buffer = buffer;
  discarding_oversized_record = discarding;
  limits = p.limits;
  output_record_count = p.output_record_count;
  output_byte_count = p.output_byte_count;
  output_limit_reached = p.output_limit_reached;
}

-- The loop over a line's events. The flag says that it returned early.
abbrev pub append_events :
    TransferOutputParser → List ParsedOutput → TransferOutputParser × List ParsedOutput × Bool
append_events p [] = (p, [], false)
append_events p (e ∷ es) =
    let (q, out, stopped) =
      append_events
        (counted p (p.output_record_count + 1) p.output_byte_count p.output_limit_reached) es in
    if leb p.limits.max_output_records p.output_record_count
    then (limit_reached p, diagnostic output_too_large ∷ [], true)
    else (q, e ∷ out, stopped)

abbrev finish_line :
    Text
    → TransferOutputParser × List ParsedOutput × Bool
    → TransferOutputParser × List ParsedOutput
finish_line line (p, out, true) = (p, out)
finish_line line (p, out, false) = (
  counted p p.output_record_count (saturating_add p.output_byte_count (length line))
      p.output_limit_reached,
  out,
)

unfoldable pub append_line : TransferOutputParser → Text → TransferOutputParser × List ParsedOutput
append_line p line =
    if p.output_limit_reached
    then (p, [])
    else if ltb p.limits.max_output_bytes (saturating_add p.output_byte_count (length line))
    then (limit_reached p, diagnostic output_too_large ∷ [])
    else finish_line line (append_events p (parse_line line))

-- The body of the loop of `feed`: one byte.
unfoldable pub feed_byte : TransferOutputParser → ℕ → TransferOutputParser × List ParsedOutput
feed_byte p b =
    if p.discarding_oversized_record
    then if b == b'\n'
      then (buffered p p.buffer false, diagnostic record_too_long ∷ [])
      else (p, [])
    else if b == b'\n'
    then append_line (buffered p [] false) p.buffer
    else if ltb p.limits.max_record_bytes (length (p.buffer ++ (b ∷ [])))
    then (buffered p [] true, [])
    else (buffered p (p.buffer ++ (b ∷ [])) false, [])

abbrev pub feed : TransferOutputParser → Text → TransferOutputParser × List ParsedOutput
feed p [] = (p, [])
feed p (b ∷ bs) = let (q, out) = feed_byte p b in let (r, rest) = feed q bs in (r, out ++ rest)

unfoldable pub finish : TransferOutputParser → TransferOutputParser × List ParsedOutput
finish p = if is_empty p.buffer && not p.discarding_oversized_record then (p, []) else (
  buffered p [] false,
  diagnostic (if p.discarding_oversized_record then record_too_long else truncated_record) ∷ [],
)

abbrev pub feed_chunks : TransferOutputParser → List Text → TransferOutputParser × List ParsedOutput
feed_chunks p [] = (p, [])
feed_chunks p (c ∷ cs) =
    let (q, out) = feed p c in let (r, rest) = feed_chunks q cs in (r, out ++ rest)

unfoldable pub parse_chunks : List Text → ParsedTransferOutput
parse_chunks chunks =
    let (p, out) = feed_chunks new_parser chunks in push_all no_output (out ++ (finish p).1)
