-- ===== src/Parser/Bounded.antt =====
-- The bounds that the parser of crates/syncplus-core/src/parser.rs keeps on its buffer and output.
use sync_plus.Base.{
  ◌≡◌, refl, sym, ◌∙◌, subst, Bool, true, false, List, [], ◌∷◌, ◌++◌, length, if◌then◌else◌, ◌==◌,
  arith, Bool-cases, inl, inr, ℕ, suc, ◌+◌, ◌≤◌, max, ltb, leb, Text, nat_eq,
}
use sync_plus.Parser.{
  Limits, TransferOutputParser, with_output_limits, saturating_add, counted, buffered,
  append_events, finish_line, append_line, feed_byte, feed,
}
use sync_plus.Parser.Line.{
  ParsedOutput, itemized, progress, diagnostic, output_too_large, record_too_long, parse_line,
}

-- How many events carry a record.
abbrev pub record_count : List ParsedOutput → ℕ
record_count [] = 0
record_count (itemized r ∷ es) = suc (record_count es)
record_count (progress r ∷ es) = suc (record_count es)
record_count (diagnostic d ∷ es) = record_count es

pub record IsBounded (p : TransferOutputParser) : Type 0 where
  pub short : length p.buffer ≤ p.limits.max_record_bytes
  pub few : p.output_record_count ≤ p.limits.max_output_records
  pub small : p.output_byte_count ≤ p.limits.max_output_bytes

-- A parser that has gone from `p` to `q` with some output.
pub record HasAdvanced (p q : TransferOutputParser) (out : List ParsedOutput) : Type 0 where
  pub bounded : IsBounded q
  pub same_limits : q.limits ≡ p.limits
  pub counted_all : record_count out + p.output_record_count ≤ q.output_record_count

record_count-append :
    (xs ys : List ParsedOutput) → record_count (xs ++ ys) ≡ record_count xs + record_count ys
record_count-append [] ys = omega arith
record_count-append (itemized r ∷ xs) ys = omega (arith, record_count-append xs ys)
record_count-append (progress r ∷ xs) ys = omega (arith, record_count-append xs ys)
record_count-append (diagnostic d ∷ xs) ys = record_count-append xs ys

record_count_one :
    (e : ParsedOutput) (es : List ParsedOutput) → record_count (e ∷ es) ≤ suc (record_count es)
record_count_one (itemized r) es = omega arith
record_count_one (progress r) es = omega arith
record_count_one (diagnostic d) es = omega arith

append_events_lem :
    (p : TransferOutputParser) (es : List ParsedOutput)
    → IsBounded p
    → HasAdvanced p (append_events p es).0 (append_events p es).1
append_events_lem p [] h = record { bounded = h; same_limits = refl; counted_all = omega arith }
append_events_lem p (e ∷ es) h =
    elim (Bool-cases (leb p.limits.max_output_records p.output_record_count)) [
      | inl full ↦ rw full (record {
        bounded = record { short = h.short; few = h.few; small = h.small };
        same_limits = refl;
        counted_all = omega arith;
      })
      | inr room ↦
          let less : p.output_record_count + 1 ≤ p.limits.max_output_records =
            ground (arith, room) in
          let rest =
            append_events_lem
              (counted p (p.output_record_count + 1) p.output_byte_count p.output_limit_reached) es
              (record { short = h.short; few = less; small = h.small }) in
          rw room (record {
            bounded = rest.bounded;
            same_limits = rest.same_limits;
            counted_all = omega (arith, rest.counted_all, record_count_one e _);
          })
    ]

finish_line_lem :
    (p : TransferOutputParser) (line : Text) (r : TransferOutputParser × List ParsedOutput × Bool)
    → saturating_add r.0.output_byte_count (length line) ≤ r.0.limits.max_output_bytes
    → HasAdvanced p r.0 r.1
    → HasAdvanced p (finish_line line r).0 (finish_line line r).1
finish_line_lem p line (q, out, true) k h = h
finish_line_lem p line (q, out, false) k h = record {
  bounded = record { short = h.bounded.short; few = h.bounded.few; small = k };
  same_limits = h.same_limits;
  counted_all = h.counted_all;
}

append_events-output_byte_count :
    (p : TransferOutputParser) (es : List ParsedOutput)
    → (append_events p es).0.output_byte_count ≡ p.output_byte_count
append_events-output_byte_count p [] = refl
append_events-output_byte_count p (e ∷ es) = ground (
  arith,
  append_events-output_byte_count
      (counted p (p.output_record_count + 1) p.output_byte_count p.output_limit_reached) es,
)

-- On both branches of a test.
HasAdvanced-if :
    {p : TransferOutputParser} (b : Bool) {r s : TransferOutputParser × List ParsedOutput}
    → (b ≡ true → HasAdvanced p r.0 r.1)
    → (b ≡ false → HasAdvanced p s.0 s.1)
    → HasAdvanced p (if b then r else s).0 (if b then r else s).1
HasAdvanced-if true h k = h refl
HasAdvanced-if false h k = k refl

-- No record comes out, and the counts stay.
unread :
    (p : TransferOutputParser) (buffer : Text) (discarding reached : Bool) (out : List ParsedOutput)
    → IsBounded p
    → length buffer ≤ p.limits.max_record_bytes
    → record_count out ≡ 0
    → HasAdvanced p
        (counted (buffered p buffer discarding) p.output_record_count p.output_byte_count reached)
        out
unread p buffer discarding reached out h short none' = record {
  bounded = record { short = short; few = h.few; small = h.small };
  same_limits = refl;
  counted_all = omega (arith, none');
}

append_line_lem :
    (p : TransferOutputParser) (line : Text)
    → IsBounded p
    → HasAdvanced p (append_line p line).0 (append_line p line).1
unfolding append_line
append_line_lem p line h =
    HasAdvanced-if p.output_limit_reached
      (λ _.
        unread p p.buffer p.discarding_oversized_record p.output_limit_reached [] h h.short refl)
      (λ _.
        HasAdvanced-if
          (ltb p.limits.max_output_bytes (saturating_add p.output_byte_count (length line)))
          (λ _.
            unread p p.buffer p.discarding_oversized_record true (diagnostic output_too_large ∷ [])
              h h.short refl)
          (λ fits.
            finish_line_lem p line (append_events p (parse_line line))
              (within_bytes (ground (arith, fits))) (append_events_lem p (parse_line line) h)))
  where
    within_bytes :
        saturating_add p.output_byte_count (length line) ≤ p.limits.max_output_bytes
        → saturating_add (append_events p (parse_line line)).0.output_byte_count (length line)
          ≤ (append_events p (parse_line line)).0.limits.max_output_bytes
    within_bytes most =
        subst
          (λ n.
            saturating_add n (length line)
            ≤ (append_events p (parse_line line)).0.limits.max_output_bytes)
          (sym (append_events-output_byte_count p (parse_line line)))
          (subst
            (λ (l : Limits). saturating_add p.output_byte_count (length line) ≤ l.max_output_bytes)
            (sym (append_events_lem p (parse_line line) h).same_limits) most)

feed_byte_lem :
    (p : TransferOutputParser) (b : ℕ)
    → IsBounded p
    → HasAdvanced p (feed_byte p b).0 (feed_byte p b).1
unfolding feed_byte
feed_byte_lem p b h =
    HasAdvanced-if p.discarding_oversized_record
      (λ _.
        HasAdvanced-if (b == b'\n')
          (λ _.
            unread p p.buffer false p.output_limit_reached (diagnostic record_too_long ∷ []) h
              h.short refl)
          (λ _.
            unread p p.buffer p.discarding_oversized_record p.output_limit_reached [] h h.short
              refl))
      (λ _.
        HasAdvanced-if (b == b'\n')
          (λ _. line_end (
            append_line_lem (buffered p [] false) p.buffer
              (record { short = omega arith; few = h.few; small = h.small })))
          (λ _.
            HasAdvanced-if (ltb p.limits.max_record_bytes (length (p.buffer ++ (b ∷ []))))
              (λ _. unread p [] true p.output_limit_reached [] h (omega arith) refl)
              (λ fits.
                unread p (p.buffer ++ (b ∷ [])) false p.output_limit_reached [] h
                  (ground (arith, fits)) refl)))
  where
    line_end :
        {q : TransferOutputParser} {out : List ParsedOutput}
        → HasAdvanced (buffered p [] false) q out
        → HasAdvanced p q out
    line_end r = record {
      bounded = r.bounded;
      same_limits = r.same_limits;
      counted_all = r.counted_all;
    }

feed_lem :
    (p : TransferOutputParser) (bs : Text) → IsBounded p → HasAdvanced p (feed p bs).0 (feed p bs).1
feed_lem p [] h = record { bounded = h; same_limits = refl; counted_all = omega arith }
feed_lem p (b ∷ bs) h =
    let one = feed_byte_lem p b h in
    let rest = feed_lem (feed_byte p b).0 bs one.bounded in
    record {
      bounded = rest.bounded;
      same_limits = rest.same_limits ∙ one.same_limits;
      counted_all = omega (
        arith,
        record_count-append (feed_byte p b).1 (feed (feed_byte p b).0 bs).1,
        one.counted_all,
        rest.counted_all,
      );
    }

-- Whatever bytes a parser has been fed since it was made, its buffer holds no more than the largest
-- record and its counts are within its limits, and the records that it has given are no more than
-- the largest number of records (each limit counts as at least 1).
pub feed-IsBounded :
    (record_bytes records bytes : ℕ) (bs : Text)
    → let p = with_output_limits record_bytes records bytes in
      IsBounded (feed p bs).0
      × ((feed p bs).0.limits ≡ p.limits)
      × (record_count (feed p bs).1 ≤ max records 1)
feed-IsBounded record_bytes records bytes bs =
    let p = with_output_limits record_bytes records bytes in
    let r =
      feed_lem p bs (record { short = omega arith; few = omega arith; small = omega arith }) in
    (r.bounded, r.same_limits, most r)
  where
    most :
        {q : TransferOutputParser} {out : List ParsedOutput}
        → HasAdvanced (with_output_limits record_bytes records bytes) q out
        → record_count out ≤ max records 1
    most {q} r =
        let few =
          subst (λ (l : Limits). q.output_record_count ≤ l.max_output_records) r.same_limits
            r.bounded.few in
        omega (arith, r.counted_all, few)
