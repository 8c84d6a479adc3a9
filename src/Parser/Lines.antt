-- ===== src/Parser/Lines.antt =====
-- What one line of rsync's output does to the parser of crates/syncplus-core/src/parser.rs,
-- described by the room that is left for output.
use sync_plus.Base.{
  ◌≡◌, refl, ap, true, false, List, [], ◌∷◌, ◌++◌, length, if◌then◌else◌, arith, Bool-cases, inl,
  inr, ℕ, zero, suc, ◌+◌, ◌-◌, max, ◌≤◌, ◌<◌, ltb, leb, Text, nat_eq,
}
use sync_plus.Parser.{TransferOutputParser, saturating_add, counted, append_events, append_line}
use sync_plus.Parser.Line.{ParsedOutput, diagnostic, record_too_long, output_too_large, parse_line}

-- The first records of a line.
abbrev pub first_records : ℕ → List ParsedOutput → List ParsedOutput
first_records zero es = []
first_records (suc n) [] = []
first_records (suc n) (e ∷ es) = e ∷ first_records n es

-- One line of a length that fits, with the room that is left for output. Once the output was too
-- large, nothing more is reported. A line whose bytes or whose records go beyond the room makes it
-- too large; the records that still fit are kept.
abbrev pub short_line :
    TransferOutputParser → ℕ → List ParsedOutput → TransferOutputParser × List ParsedOutput
short_line p bytes es =
    let room = p.limits.max_output_records - p.output_record_count in
    let full = max p.output_record_count p.limits.max_output_records in
    if p.output_limit_reached
    then (p, [])
    else if ltb p.limits.max_output_bytes bytes
    then (
      counted p p.output_record_count p.output_byte_count true,
      diagnostic output_too_large ∷ [],
    )
    else if leb (length es) room
    then (counted p (p.output_record_count + length es) bytes false, es)
    else (
      counted p full p.output_byte_count true,
      first_records room es ++ (diagnostic output_too_large ∷ []),
    )

-- One line: too long, or parsed whole.
abbrev pub whole_line : TransferOutputParser → Text → TransferOutputParser × List ParsedOutput
whole_line p line =
    if leb (length line) p.limits.max_record_bytes
    then short_line p (saturating_add p.output_byte_count (length line)) (parse_line line)
    else (p, diagnostic record_too_long ∷ [])

append_events-within :
    (p : TransferOutputParser) (es : List ParsedOutput)
    → length es ≤ p.limits.max_output_records - p.output_record_count
    → append_events p es ≡ (
      counted p (p.output_record_count + length es) p.output_byte_count p.output_limit_reached,
      es,
      false,
    )
append_events-within p [] h =
    ap (λ n. (counted p n p.output_byte_count p.output_limit_reached, [], false)) (omega arith)
append_events-within p (e ∷ es) h =
    let q = counted p (p.output_record_count + 1) p.output_byte_count p.output_limit_reached in
    let room : leb p.limits.max_output_records p.output_record_count ≡ false = ground (arith, h) in
    rw (room, append_events-within q es (omega (arith, h)))
      (ap (λ n. (counted p n p.output_byte_count p.output_limit_reached, e ∷ es, false))
        (omega arith))

append_events-over :
    (p : TransferOutputParser) (es : List ParsedOutput)
    → p.limits.max_output_records - p.output_record_count < length es
    → append_events p es ≡ (
      counted p (max p.output_record_count p.limits.max_output_records) p.output_byte_count true,
      first_records (p.limits.max_output_records - p.output_record_count) es
          ++ (diagnostic output_too_large ∷ []),
      true,
    )
append_events-over p [] h = absurd (omega (arith, h))
append_events-over p (e ∷ es) h =
    elim (Bool-cases (leb p.limits.max_output_records p.output_record_count)) [
      | inl full ↦
          let none_left : p.limits.max_output_records - p.output_record_count ≡ 0 =
            ground (arith, full) in
          let same : max p.output_record_count p.limits.max_output_records ≡ p.output_record_count =
            ground (arith, full) in
          rw (full, none_left, same) refl
      | inr room ↦
          let q =
            counted p (p.output_record_count + 1) p.output_byte_count p.output_limit_reached in
          let some_left : p.limits.max_output_records - p.output_record_count
              ≡ suc (p.limits.max_output_records - (p.output_record_count + 1)) =
            ground (arith, room) in
          let same : max p.output_record_count p.limits.max_output_records
              ≡ max (p.output_record_count + 1) p.limits.max_output_records =
            ground (arith, room) in
          rw (room, some_left, same, append_events-over q es (ground (arith, h, room))) refl
    ]

-- What the code does with a line is what the description says.
pub append_line_lem :
    (p : TransferOutputParser) (line : Text)
    → append_line p line
      ≡ short_line p (saturating_add p.output_byte_count (length line)) (parse_line line)
unfolding append_line
append_line_lem p line =
    let room = p.limits.max_output_records - p.output_record_count in
    elim (Bool-cases (leb (length (parse_line line)) room)) [
      | inl fits ↦
          rw (append_events-within p (parse_line line) (ground (arith, fits)), fits) (ground arith)
      | inr over ↦ rw (append_events-over p (parse_line line) (ground (arith, over)), over) refl
    ]
