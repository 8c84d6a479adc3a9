-- ===== src/Parser/Chunks.antt =====
-- The parser of crates/syncplus-core/src/parser.rs, fed piece by piece or at once.
use sync_plus.Base.{◌≡◌, refl, sym, ◌∙◌, ap, List, [], ◌∷◌, ◌++◌, Text}
use sync_plus.Parser.{
  TransferOutputParser, new_parser, push_all, no_output, feed_byte, feed, finish, feed_chunks,
  parse_chunks,
}
use sync_plus.Parser.Line.{ParsedOutput}

abbrev pub concat : List Text → Text
concat [] = []
concat (c ∷ cs) = c ++ concat cs

append_assoc {ℓ} : {A : Type ℓ} (xs ys zs : List A) → (xs ++ ys) ++ zs ≡ xs ++ (ys ++ zs)
append_assoc [] ys zs = refl
append_assoc (x ∷ xs) ys zs = ap (λ rest. x ∷ rest) (append_assoc xs ys zs)

-- Two feeds in a row: the state of the second, and both outputs.
abbrev pub feed_both : TransferOutputParser → Text → Text → TransferOutputParser × List ParsedOutput
feed_both p xs ys = let (q, out) = feed p xs in let (r, rest) = feed q ys in (r, out ++ rest)

pub feed-append : (p : TransferOutputParser) (xs ys : Text) → feed p (xs ++ ys) ≡ feed_both p xs ys
feed-append p [] ys = refl
feed-append p (x ∷ xs) ys =
    let q = (feed_byte p x).0 in
    let out = (feed_byte p x).1 in
    ap (λ r. (r.0, out ++ r.1)) (feed-append q xs ys)
    ∙ ap (λ o. ((feed (feed q xs).0 ys).0, o))
        (sym (append_assoc out (feed q xs).1 (feed (feed q xs).0 ys).1))

feed_chunks-concat :
    (p : TransferOutputParser) (chunks : List Text) → feed_chunks p chunks ≡ feed p (concat chunks)
feed_chunks-concat p [] = refl
feed_chunks-concat p (c ∷ cs) =
    let q = (feed p c).0 in
    ap (λ r. (r.0, (feed p c).1 ++ r.1)) (feed_chunks-concat q cs)
    ∙ sym (feed-append p c (concat cs))

-- How the bytes are cut into chunks does not matter: chunks with the same bytes in the same order
-- give the same records and diagnostics, wherever a read ended in the middle of a line.
pub parse_chunks-concat :
    (xs ys : List Text) → concat xs ≡ concat ys → parse_chunks xs ≡ parse_chunks ys
unfolding parse_chunks
parse_chunks-concat xs ys h =
    ap
      (λ (r : TransferOutputParser × List ParsedOutput). push_all no_output (r.1 ++ (finish r.0).1))
      (feed_chunks-concat new_parser xs
        ∙ ap (feed new_parser) h
        ∙ sym (feed_chunks-concat new_parser ys))
