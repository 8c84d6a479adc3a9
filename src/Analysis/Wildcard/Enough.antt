-- ===== src/Analysis/Wildcard/Enough.antt =====
-- The loop of `wildcard_match` ends: each turn lowers a rank that the fuel exceeds.
use native.Mathlib.Nat.{mul-le-mul_right}
use mathlib.Core.Option
use sync_plus.Base.{
  ℕ, zero, suc, ◌+◌, ◌*◌, ◌<◌, ◌≤◌, Bool, true, false, Option, none, some, [], ◌∷◌, length, is_some,
  ◌≡◌, subst, ◌⊎◌, inl, inr, refl, arith, if◌then◌else◌, ◌==◌, nat_eq,
}
use sync_plus.Analysis.Wildcard.{
  Characters, Star, Search, Turn, goes_on, returns, retry, turn, accepts, star_at, search,
  wildcard_search, wildcard_match, fuel_for,
}

-- The value that is left for the last `*`, or for the whole pattern before the first one.
abbrev base : Characters → Option Star → Characters
base vs none = vs
base vs (some star) = star.value

abbrev rank : ℕ → Characters → Characters → Option Star → ℕ
rank k ps vs star = length (base vs star) * k + length ps

-- The saved pattern is shorter than `k`, and no less of the value is left for the last `*`.
abbrev IsBelow : ℕ → Characters → Option Star → Type 0
IsBelow k vs none = Unit
IsBelow k vs (some star) = (length star.pattern < k) × (length vs ≤ length star.value)

pub Turn-cases :
    (t : Turn) → ((answer : Bool) × (t ≡ returns answer)) ⊎ ((next : Search) × (t ≡ goes_on next))
Turn-cases (returns answer) = inl (answer, refl)
Turn-cases (goes_on next) = inr (next, refl)

-- A turn returns, or goes on below the rank.
abbrev Descends : ℕ → ℕ → Turn → Type 0
Descends k r (returns answer) = Unit
Descends k r (goes_on next) =
    (length next.pattern < k)
    × IsBelow k next.value next.star
    × (rank k next.pattern next.value next.star < r)

retry-Descends :
    (k r : ℕ) (sp sv : Characters)
    → length sp < k
    → 0 < length sv
    → length sv * k ≤ r
    → Descends k r (retry (some (star_at sp sv)))
retry-Descends k r sp [] s n h = absurd (omega arith)
retry-Descends k r sp (w ∷ ws) s n h = (s, (s, omega arith), omega arith)

-- Either way of the loop's test.
if-Descends :
    (k r : ℕ) (accepted starred : Bool) (x y z : Turn)
    → Descends k r x
    → Descends k r y
    → Descends k r z
    → Descends k r (if accepted then x else if starred then y else z)
if-Descends k r true starred x y z hx hy hz = hx
if-Descends k r false true x y z hx hy hz = hy
if-Descends k r false false x y z hx hy hz = hz

longer : (k m v w : ℕ) → v ≤ w → v * k + m < w * k + suc m
longer k m v w h = omega (arith, mul-le-mul_right k h)

turn-Descends :
    (k : ℕ) (ps vs : Characters) (star : Option Star)
    → length ps < k
    → IsBelow k vs star
    → Descends k (rank k ps vs star) (turn ps vs star)
turn-Descends k ps [] star s b = tt
turn-Descends k [] (v ∷ vs) none s b = tt
turn-Descends k [] (v ∷ vs) (some star) s b =
    retry-Descends k _ star.pattern star.value b.0 (omega (arith, b.1)) (omega arith)
turn-Descends k (p ∷ ps) (v ∷ vs) none s b =
    if-Descends k _ (accepts p v) (p == b'*') _ _ _ (omega arith, tt, omega arith)
      (omega arith, (omega arith, omega arith), omega arith) tt
turn-Descends k (p ∷ ps) (v ∷ vs) (some star) s b =
    if-Descends k _ (accepts p v) (p == b'*') _ _ _
      (omega arith, (b.0, omega (arith, b.1)), omega arith)
      (omega arith, (omega arith, omega arith), longer k (length ps) _ _ b.1)
      (retry-Descends k _ star.pattern star.value b.0 (omega (arith, b.1)) (omega arith))

search-enough :
    (k fuel : ℕ) (ps vs : Characters) (star : Option Star)
    → length ps < k
    → IsBelow k vs star
    → rank k ps vs star < fuel
    → is_some (search fuel ps vs star) ≡ true
unfolding search
search-enough k zero ps vs star s b h = absurd (omega arith)
search-enough k (suc fuel) ps vs star s b h = elim (Turn-cases (turn ps vs star)) [
  | inl (answer, e) ↦ rw (is_some, e) refl
  | inr (next, e) ↦
      let d : Descends k (rank k ps vs star) (goes_on next) =
        subst (Descends k (rank k ps vs star)) e (turn-Descends k ps vs star s b) in
      rw (is_some, e)
        (search-enough k fuel next.pattern next.value next.star d.0 d.1 (omega (arith, d.2)))
]

wildcard_search-is_some :
    (pattern value : Characters) → is_some (wildcard_search pattern value) ≡ true
unfolding wildcard_search
wildcard_search-is_some pattern value =
    search-enough (length pattern + 1) (fuel_for pattern value) pattern value none (omega arith) tt
      (omega arith)

some-get_or : (o : Option Bool) → is_some o ≡ true → o ≡ some (Option.get_or o false)
some-get_or none h = cc
some-get_or (some answer) h = refl

-- The loop of `wildcard_match` ends with the function's answer, whatever the pattern and the value
-- are: it takes at most (length of the value + 1) * (length of the pattern + 1) turns.
pub wildcard_search-wildcard_match :
    (pattern value : Characters)
    → wildcard_search pattern value ≡ some (wildcard_match pattern value)
unfolding wildcard_match
wildcard_search-wildcard_match pattern value =
    some-get_or (wildcard_search pattern value) (wildcard_search-is_some pattern value)
