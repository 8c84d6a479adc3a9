-- ===== src/Examples/Parsing.antt =====
-- Lines of rsync's output.
use sync_plus.Base.{
  ◌≡◌, refl, true, false, List, [], ◌∷◌, ℕ, Result, ok, err, ◌≤◌, max, nat_eq, text_eq, All, arith,
}
use sync_plus.Parser.{parse_chunks, feed, with_output_limits}
use sync_plus.Parser.Bytes.{codes}
use sync_plus.Parser.Escape.{decode, unescape_path, invalid_escape}
use sync_plus.Parser.Line.{
  itemized, progress, parse_line, is_known_rsync_info, split_itemized_line, parse_progress,
}
use sync_plus.Parser.Chunks.{parse_chunks-concat}
use sync_plus.Parser.Bounded.{IsBounded, record_count, feed-IsBounded}
use sync_plus.Parser.Reference.{IsAtRest, IsLine, unlines, feed_lines, feed-unlines}
use sync_plus.Parser.Grammar.{
  Encodes, end, plain, hex, octal, decimal, upper, unescape_path-Encodes,
}

parsed-item :
    parse_line (codes ">f+++++++++ a\\040b")
    ≡ itemized (record { code = codes ">f+++++++++"; path = codes "a b" }) ∷ []
unfolding parse_line is_known_rsync_info split_itemized_line unescape_path decode nat_eq text_eq
parsed-item = refl

parsed-progress :
    parse_line (codes "  1,234  56% 0:01")
    ≡ progress (record { completed_bytes = 1234; percent = 56 }) ∷ []
unfolding parse_line is_known_rsync_info parse_progress nat_eq text_eq
parsed-progress = refl

refused-escape : unescape_path (codes "a\\9") ≡ err invalid_escape
unfolding unescape_path decode nat_eq
refused-escape = refl

parse_chunks-concat_example :
    parse_chunks (codes "to" ∷ codes "tal\n" ∷ []) ≡ parse_chunks (codes "total\n" ∷ [])
parse_chunks-concat_example =
    parse_chunks-concat (codes "to" ∷ codes "tal\n" ∷ []) (codes "total\n" ∷ []) refl

feed-IsBounded_example :
    IsBounded (feed (with_output_limits 4 2 20) (codes "abcdef\n5%\n")).0
    × ((feed (with_output_limits 4 2 20) (codes "abcdef\n5%\n")).0.limits
        ≡ (with_output_limits 4 2 20).limits)
    × (record_count (feed (with_output_limits 4 2 20) (codes "abcdef\n5%\n")).1 ≤ max 2 1)
feed-IsBounded_example = feed-IsBounded 4 2 20 (codes "abcdef\n5%\n")

abbrev two_lines : List (List ℕ)
two_lines = codes "abcdef" ∷ codes "5%" ∷ []

two_lines-IsLine : All IsLine two_lines
unfolding nat_eq
two_lines-IsLine = (refl, (refl, tt))

feed-unlines_example :
    (feed (with_output_limits 4 2 20) (unlines two_lines)
      ≡ feed_lines (with_output_limits 4 2 20) two_lines)
    × IsAtRest (feed (with_output_limits 4 2 20) (unlines two_lines)).0
feed-unlines_example =
    feed-unlines (with_output_limits 4 2 20) two_lines
      (record { empty_buffer = refl; reading = refl }) two_lines-IsLine

a_space : Encodes (codes "a\\040\\x4A") (codes "a J")
a_space = plain b'a' (ground arith) (
    octal 0 4 0 (omega arith) (omega arith) (omega arith) (omega arith)
      (hex b'4' b'A' 4 10 (decimal 4 (omega arith)) (upper 0 (omega arith)) end))

a_space-plain : (sync_plus.Base.contains (codes "a J") 0 ≡ false)
unfolding nat_eq
a_space-plain = refl

unescape_path-Encodes_example : unescape_path (codes "a\\040\\x4A") ≡ ok (codes "a J")
unescape_path-Encodes_example =
    unescape_path-Encodes (codes "a\\040\\x4A") (codes "a J") a_space a_space-plain refl
