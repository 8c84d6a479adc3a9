-- ===== src/Parser/Reference.antt =====
-- The parser of crates/syncplus-core/src/parser.rs against a description of its input by lines.
use sync_plus.Base.{
  ◌≡◌, refl, sym, ◌∙◌, ap, subst, Bool, true, false, List, [], ◌∷◌, ◌++◌, length, length-append,
  if◌then◌else◌, ◌==◌, contains, arith, Bool-cases, inl, inr, ℕ, ◌-◌, ◌≤◌, ◌<◌, ltb, leb, Text,
  nat_eq, All,
}
use sync_plus.Parser.{
  TransferOutputParser, saturating_add, limit_reached, buffered, append_line, feed_byte, feed,
}
use sync_plus.Parser.Line.{ParsedOutput, diagnostic, record_too_long, parse_line}
use sync_plus.Parser.Lines.{whole_line, append_line_lem}

-- Lines as text, each ended by a newline.
abbrev pub unlines : List Text → Text
unlines [] = []
unlines (l ∷ ls) = l ++ (b'\n' ∷ unlines ls)

abbrev after_line :
    TransferOutputParser × List ParsedOutput
    → (TransferOutputParser → TransferOutputParser × List ParsedOutput)
    → TransferOutputParser × List ParsedOutput
after_line r f = let (q, out) = f r.0 in (q, r.1 ++ out)

abbrev pub feed_lines : TransferOutputParser → List Text → TransferOutputParser × List ParsedOutput
feed_lines p [] = (p, [])
feed_lines p (l ∷ ls) = after_line (whole_line p l) (λ q. feed_lines q ls)

abbrev pub IsLine : Text → Type 0
IsLine line = contains line b'\n' ≡ false

-- Between two lines.
pub record IsAtRest (p : TransferOutputParser) : Type 0 where
  pub empty_buffer : p.buffer ≡ []
  pub reading : p.discarding_oversized_record ≡ false

-- A line that is being dropped.
feed_dropped :
    (p : TransferOutputParser) (line bs : Text)
    → IsLine line
    → feed (buffered p [] true) (line ++ (b'\n' ∷ bs))
      ≡ after_line (buffered p [] false, diagnostic record_too_long ∷ []) (λ q. feed q bs)
unfolding feed_byte nat_eq
feed_dropped p [] bs h = refl
feed_dropped p (b ∷ line) bs h =
    let other : (b == b'\n') ≡ false = ground (arith, h) in
    rw other (feed_dropped p line bs (ground (arith, h)))

append_empty : (bs : Text) → bs ++ [] ≡ bs
append_empty [] = refl
append_empty (b ∷ bs) = ap (λ rest. b ∷ rest) (append_empty bs)

append_assoc : (bs : Text) (b : ℕ) (cs : Text) → (bs ++ (b ∷ [])) ++ cs ≡ bs ++ (b ∷ cs)
append_assoc [] b cs = refl
append_assoc (a ∷ bs) b cs = ap (λ rest. a ∷ rest) (append_assoc bs b cs)

whole_line_short :
    (p : TransferOutputParser) (line : Text)
    → length line ≤ p.limits.max_record_bytes
    → whole_line p line ≡ append_line p line
whole_line_short p line h =
    let fits : leb (length line) p.limits.max_record_bytes ≡ true = ground arith in
    rw fits (sym (append_line_lem p line))

whole_line_long :
    (p : TransferOutputParser) (line : Text)
    → p.limits.max_record_bytes < length line
    → whole_line p line ≡ (p, diagnostic record_too_long ∷ [])
whole_line_long p line h =
    let long : leb (length line) p.limits.max_record_bytes ≡ false = ground arith in rw long refl

feed_byte_end :
    (p : TransferOutputParser) (buffer : Text)
    → feed_byte (buffered p buffer false) b'\n' ≡ append_line (buffered p [] false) buffer
unfolding feed_byte nat_eq
feed_byte_end p buffer = refl

feed_byte_within :
    (p : TransferOutputParser) (buffer : Text) (b : ℕ)
    → (b == b'\n') ≡ false
    → feed_byte (buffered p buffer false) b ≡ (
        if ltb p.limits.max_record_bytes (length (buffer ++ (b ∷ [])))
        then (buffered p [] true, [])
        else (buffered p (buffer ++ (b ∷ [])) false, []))
unfolding feed_byte
feed_byte_within p buffer b h = rw h refl

-- A line whose first part is in the buffer.
feed_line :
    (p : TransferOutputParser) (buffer line bs : Text)
    → IsLine line
    → length buffer ≤ p.limits.max_record_bytes
    → feed (buffered p buffer false) (line ++ (b'\n' ∷ bs))
      ≡ after_line (whole_line (buffered p [] false) (buffer ++ line)) (λ q. feed q bs)
feed_line p buffer [] bs h k =
    ap (λ r. after_line r (λ q. feed q bs))
      (feed_byte_end p buffer
        ∙ sym (whole_line_short (buffered p [] false) buffer k)
        ∙ ap (whole_line (buffered p [] false)) (sym (append_empty buffer)))
feed_line p buffer (b ∷ line) bs h k =
    let more = line ++ (b'\n' ∷ bs) in
    let first = feed_byte_within p buffer b (ground (arith, h)) in
    let is_line : IsLine line = ground (arith, h) in
    elim (Bool-cases (ltb p.limits.max_record_bytes (length (buffer ++ (b ∷ []))))) [
      | inl long ↦
          let over : p.limits.max_record_bytes < length (buffer ++ (b ∷ line)) =
            ground (arith, long, length-append buffer (b ∷ line), length-append buffer (b ∷ [])) in
          ap (λ r. after_line r (λ q. feed q more)) (first ∙ chosen_true _ _ _ long)
          ∙ feed_dropped p line bs is_line
          ∙ ap (λ r. after_line r (λ q. feed q bs))
              (sym (whole_line_long (buffered p [] false) (buffer ++ (b ∷ line)) over))
      | inr fits ↦
          ap (λ r. after_line r (λ q. feed q more)) (first ∙ chosen_false _ _ _ fits)
          ∙ feed_line p (buffer ++ (b ∷ [])) line bs is_line (ground (arith, fits))
          ∙ ap (λ l. after_line (whole_line (buffered p [] false) l) (λ q. feed q bs))
              (append_assoc buffer b line)
    ]
  where
    chosen_true : {A : Type 0} (c : Bool) (x y : A) → c ≡ true → (if c then x else y) ≡ x
    chosen_true true x y e = refl
    chosen_true false x y e = cc

    chosen_false : {A : Type 0} (c : Bool) (x y : A) → c ≡ false → (if c then x else y) ≡ y
    chosen_false false x y e = refl
    chosen_false true x y e = cc

IsAtRest-if :
    (b : Bool) (r s : TransferOutputParser × List ParsedOutput)
    → IsAtRest r.0
    → IsAtRest s.0
    → IsAtRest (if b then r else s).0
IsAtRest-if true r s h k = h
IsAtRest-if false r s h k = k

pub whole_line-IsAtRest :
    (p : TransferOutputParser) (line : Text) → IsAtRest p → IsAtRest (whole_line p line).0
whole_line-IsAtRest p line h =
    let same : IsAtRest (limit_reached p) = record {
      empty_buffer = h.empty_buffer;
      reading = h.reading;
    } in
    IsAtRest-if (leb (length line) p.limits.max_record_bytes) _ _
      (IsAtRest-if p.output_limit_reached _ _ h (
        IsAtRest-if
          (ltb p.limits.max_output_bytes (saturating_add p.output_byte_count (length line))) _ _
          same
          (IsAtRest-if
            (leb (length (parse_line line)) (p.limits.max_output_records - p.output_record_count)) _
            _ (record { empty_buffer = h.empty_buffer; reading = h.reading })
            (record { empty_buffer = h.empty_buffer; reading = h.reading }))))
      h

at_rest : (p : TransferOutputParser) → IsAtRest p → buffered p [] false ≡ p
at_rest p h = ground (arith, h.empty_buffer, h.reading)

-- Fed whole lines between two lines, the parser does what the description `feed_lines` says, one line
-- after another. A line above the largest record's length is reported and otherwise left out. Of a
-- shorter one the records of `parse_line` are reported, and counted with its bytes, as long as the
-- bytes and the records stay within the output's limits. The first line beyond the limit on bytes
-- gives a diagnostic alone, the first beyond that on records gives those that still fit and a
-- diagnostic, and no later short line reports anything. No byte of a line stays in the buffer for the
-- next one.
pub feed-unlines :
    (p : TransferOutputParser) (lines : List Text)
    → IsAtRest p
    → All IsLine lines
    → (feed p (unlines lines) ≡ feed_lines p lines) × IsAtRest (feed p (unlines lines)).0
feed-unlines p [] h k = (refl, h)
feed-unlines p (l ∷ ls) h (k, ks) =
    let rest = feed-unlines (whole_line p l).0 ls (whole_line-IsAtRest p l h) ks in
    let first : feed p (unlines (l ∷ ls)) ≡ after_line (whole_line p l) (λ q. feed q (unlines ls)) =
      subst
        (λ q. feed q (unlines (l ∷ ls)) ≡ after_line (whole_line q l) (λ r. feed r (unlines ls)))
        (at_rest p h) (feed_line p [] l (unlines ls) k (omega arith)) in
    (
      first ∙ ap (λ r. (r.0, (whole_line p l).1 ++ r.1)) rest.0,
      subst (λ (r : TransferOutputParser × List ParsedOutput). IsAtRest r.0) (sym first) rest.1,
    )
