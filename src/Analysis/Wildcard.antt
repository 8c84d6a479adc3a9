-- ===== src/Analysis/Wildcard.antt =====
-- The wildcard matching of exclusions (`wildcard_match` of analysis.rs), and the reference that it
-- is compared with. A text is the list of its characters, each by its scalar value.
pub mod Enough
pub mod Glob
use mathlib.Core.Option
use sync_plus.Base.{
  ℕ, zero, suc, ◌+◌, ◌*◌, Bool, true, false, ◌&&◌, ◌||◌, Option, none, some, List, [], ◌∷◌, length,
  if◌then◌else◌, ◌==◌, nat_eq,
}

abbrev pub Characters : Type 0
Characters = List ℕ

-- Where the last `*` stood: the pattern after it, and the value from `star_value_index` on.
pub record Star : Type 0 where
  pub pattern : Characters
  pub value : Characters

-- The rest of the pattern from `pattern_index` on, of the value from `value_index` on.
pub record Search : Type 0 where
  pub pattern : Characters
  pub value : Characters
  pub star : Option Star

-- What one turn of the loop does: it goes on, or the function returns.
pub data Turn : Type 0 where
  goes_on : Search → Turn
  returns : Bool → Turn

abbrev pub only_stars : Characters → Bool
only_stars [] = true
only_stars (p ∷ ps) = p == b'*' && only_stars ps

abbrev pub tail : Characters → Characters
tail [] = []
tail (v ∷ vs) = vs

-- Back to the last `*`, which takes one character more.
abbrev pub retry : Option Star → Turn
retry none = returns false
retry (some star) = goes_on (record {
  pattern = star.pattern;
  value = tail star.value;
  star = some (record { pattern = star.pattern; value = tail star.value });
})

abbrev pub moved_to : Characters → Characters → Option Star → Turn
moved_to ps vs star = goes_on (record { pattern = ps; value = vs; star = star })

abbrev pub star_at : Characters → Characters → Star
star_at ps vs = record { pattern = ps; value = vs }

abbrev pub accepts : ℕ → ℕ → Bool
accepts p v = p == b'?' || p == v

abbrev pub turn : Characters → Characters → Option Star → Turn
turn ps [] star = returns (only_stars ps)
turn [] (v ∷ vs) star = retry star
turn (p ∷ ps) (v ∷ vs) star =
    if accepts p v
    then moved_to ps vs star
    else if p == b'*'
    then moved_to ps (v ∷ vs) (some (star_at ps (v ∷ vs)))
    else retry star

-- The loop; no result if the fuel does not suffice.
unfoldable pub search : ℕ → Characters → Characters → Option Star → Option Bool
search zero ps vs star = none
search (suc fuel) ps vs star = elim (turn ps vs star) [
  | returns answer ↦ some answer
  | goes_on next ↦ search fuel next.pattern next.value next.star
]

abbrev pub fuel_for : Characters → Characters → ℕ
fuel_for pattern value = (length value + 1) * (length pattern + 1)

unfoldable pub wildcard_search : Characters → Characters → Option Bool
unfolding search
wildcard_search pattern value = search (fuel_for pattern value) pattern value none

unfoldable pub wildcard_match : Characters → Characters → Bool
unfolding wildcard_search
wildcard_match pattern value = Option.get_or (wildcard_search pattern value) false

-- The reference, by recursion on the pattern: `*` stands for any text, `?` for any character.
abbrev pub any_suffix : (Characters → Bool) → Characters → Bool
any_suffix f [] = f []
any_suffix f (v ∷ vs) = f (v ∷ vs) || any_suffix f vs

abbrev starts_as : ℕ → (Characters → Bool) → Characters → Bool
starts_as p f [] = false
starts_as p f (v ∷ vs) = accepts p v && f vs

unfoldable pub glob : Characters → Characters → Bool
glob [] [] = true
glob [] (v ∷ vs) = false
glob (p ∷ ps) vs = if p == b'*' then any_suffix (glob ps) vs else starts_as p (glob ps) vs
