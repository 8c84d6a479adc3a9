-- ===== src/Analysis/Wildcard/Glob.antt =====
-- `wildcard_match` agrees with the reference on values without a `*`.
use sync_plus.Base.{
  ℕ, zero, suc, Bool, true, false, not, ◌||◌, ◌&&◌, Option, none, some, [], ◌∷◌, ◌≡◌, subst, refl,
  sym, ◌∙◌, arith, ◌==◌, nat_eq, Bool-cases, inl, inr,
}
use sync_plus.Analysis.Wildcard.Enough.{Turn-cases, wildcard_search-wildcard_match}
use sync_plus.Analysis.Wildcard.{
  Characters, Star, Turn, goes_on, returns, moved_to, only_stars, tail, retry, turn, accepts,
  star_at, search, wildcard_search, wildcard_match, fuel_for, any_suffix, glob,
}

-- The character `*`.
abbrev asterisk : ℕ
asterisk = b'*'

-- What the search still has to find out: whether the pattern matches the value, or whether what
-- follows the last `*` matches a later part of its value.
abbrev meaning : Characters → Characters → Option Star → Bool
meaning ps vs none = glob ps vs
meaning ps vs (some star) = glob ps vs || any_suffix (glob star.pattern) (tail star.value)

-- Whatever a later place of the last `*` gives, a later place for the current pattern gives as well.
abbrev IsGreedy : Characters → Characters → Option Star → Type 0
IsGreedy ps vs none = Unit
IsGreedy ps vs (some star) =
    any_suffix (glob star.pattern) (tail star.value) ≡ true → any_suffix (glob ps) (tail vs) ≡ true

abbrev starless : Characters → Bool
starless [] = true
starless (v ∷ vs) = not (v == b'*') && starless vs

any_suffix-tail :
    (f : Characters → Bool) (vs : Characters)
    → any_suffix f (tail vs) ≡ true
    → any_suffix f vs ≡ true
any_suffix-tail f [] h = h
any_suffix-tail f (v ∷ vs) h = ground arith

-- A character of the pattern that is no `*` takes one of the value.
any_suffix-glob :
    (p : ℕ) (ps vs : Characters)
    → (p == b'*') ≡ false
    → any_suffix (glob (p ∷ ps)) vs ≡ true
    → any_suffix (glob ps) (tail vs) ≡ true
unfolding glob
any_suffix-glob p ps [] n h = ground arith
any_suffix-glob p ps (v ∷ vs) n h =
    ground (arith, any_suffix-glob p ps vs n, any_suffix-tail (glob ps) vs)

-- A pattern that starts with `*` matches at a later place only what it matches at once.
any_suffix-star :
    (p : ℕ) (ps vs : Characters)
    → (p == b'*') ≡ true
    → any_suffix (glob (p ∷ ps)) vs ≡ any_suffix (glob ps) vs
unfolding glob
any_suffix-star p ps [] e = ground arith
any_suffix-star p ps (v ∷ vs) e = ground (arith, any_suffix-star p ps vs e)

absorbed : (a b : Bool) → (b ≡ true → a ≡ true) → a ≡ (a || b)
absorbed true b h = refl
absorbed false b h = ground arith

glob-only_stars : (ps : Characters) → glob ps [] ≡ only_stars ps
unfolding glob
glob-only_stars [] = refl
glob-only_stars (p ∷ ps) = ground (arith, glob-only_stars ps)

abbrev IsStarless : Characters → Option Star → Type 0
IsStarless vs none = starless vs ≡ true
IsStarless vs (some star) = (starless vs ≡ true) × (starless star.value ≡ true)

-- A turn gives the answer, or keeps what there is to find out.
abbrev Agrees : Bool → Turn → Type 0
Agrees m (returns answer) = answer ≡ m
Agrees m (goes_on next) =
    (meaning next.pattern next.value next.star ≡ m)
    × IsGreedy next.pattern next.value next.star
    × IsStarless next.value next.star

retry-Agrees :
    (sp sv : Characters)
    → starless sv ≡ true
    → Agrees (any_suffix (glob sp) (tail sv)) (retry (some (star_at sp sv)))
retry-Agrees sp [] s = (ground arith, (λ h. h), (refl, refl))
retry-Agrees sp (w ∷ []) s = (ground arith, (λ h. h), (refl, refl))
retry-Agrees sp (w ∷ x ∷ ws) s = (ground arith, (λ h. h), (ground arith, ground arith))

retries-Agrees :
    (ps vs : Characters) (star : Option Star)
    → glob ps vs ≡ false
    → IsStarless vs star
    → Agrees (meaning ps vs star) (retry star)
retries-Agrees ps vs none f s = ground arith
retries-Agrees ps vs (some star) f s = rw f (retry-Agrees star.pattern star.value s.1)

-- A character that is accepted and no `*` is accepted by no `*`.
accepts-starless :
    (p v : ℕ) (vs : Characters)
    → accepts p v ≡ true
    → starless (v ∷ vs) ≡ true
    → (p == b'*') ≡ false
accepts-starless p v vs e s = ground arith

accept-Agrees :
    (p v : ℕ) (ps vs : Characters) (star : Option Star)
    → accepts p v ≡ true
    → IsStarless (v ∷ vs) star
    → IsGreedy (p ∷ ps) (v ∷ vs) star
    → Agrees (meaning (p ∷ ps) (v ∷ vs) star) (moved_to ps vs star)
unfolding glob
accept-Agrees p v ps vs none e s g =
    let n = accepts-starless p v vs e s in (rw (n, e) refl, tt, ground arith)
accept-Agrees p v ps vs (some star) e s g =
    let n = accepts-starless p v vs e s.0 in
    (rw (n, e) refl, (λ h. any_suffix-glob p ps vs n (g h)), (ground (arith, s.0), s.1))

star-Agrees :
    (p v : ℕ) (ps vs : Characters) (star : Option Star)
    → (p == b'*') ≡ true
    → IsStarless (v ∷ vs) star
    → IsGreedy (p ∷ ps) (v ∷ vs) star
    → Agrees (meaning (p ∷ ps) (v ∷ vs) star) (moved_to ps (v ∷ vs) (some (star_at ps (v ∷ vs))))
unfolding glob
star-Agrees p v ps vs none e s g = (rw e refl, (λ h. h), (s, s))
star-Agrees p v ps vs (some star) e s g = (
  rw e (
      absorbed (any_suffix (glob ps) (v ∷ vs)) _
        (λ h. any_suffix-tail (glob ps) (v ∷ vs) (sym (any_suffix-star p ps vs e) ∙ g h))),
  (λ h. h),
  (s.0, s.0),
)

turn-Agrees :
    (ps vs : Characters) (star : Option Star)
    → IsStarless vs star
    → IsGreedy ps vs star
    → Agrees (meaning ps vs star) (turn ps vs star)
unfolding glob
turn-Agrees ps [] none s g = sym (glob-only_stars ps)
turn-Agrees ps [] (some star) s g = sym (glob-only_stars ps) ∙ absorbed (glob ps []) _ g
turn-Agrees [] (v ∷ vs) star s g = retries-Agrees [] (v ∷ vs) star refl s
turn-Agrees (p ∷ ps) (v ∷ vs) star s g = elim (Bool-cases (accepts p v)) [
  | inl e ↦ rw e (accept-Agrees p v ps vs star e s g)
  | inr e ↦ elim (Bool-cases (p == b'*')) [
    | inl c ↦ rw (e, c) (star-Agrees p v ps vs star c s g)
    | inr c ↦ rw (e, c) (retries-Agrees (p ∷ ps) (v ∷ vs) star (rw (c, e) refl) s)
  ]
]

-- The answer of the loop, if there is one, is what there was to find out.
search-meaning :
    (fuel : ℕ) (ps vs : Characters) (star : Option Star) {answer : Bool}
    → IsStarless vs star
    → IsGreedy ps vs star
    → search fuel ps vs star ≡ some answer
    → answer ≡ meaning ps vs star
unfolding search
search-meaning zero ps vs star s g h = cc
search-meaning (suc fuel) ps vs star {answer} s g h = elim (Turn-cases (turn ps vs star)) [
  | inl (a, e) ↦
      let d : Agrees (meaning ps vs star) (returns a) =
        subst (Agrees (meaning ps vs star)) e (turn-Agrees ps vs star s g) in
      ground (arith, e, d)
  | inr (next, e) ↦
      let d : Agrees (meaning ps vs star) (goes_on next) =
        subst (Agrees (meaning ps vs star)) e (turn-Agrees ps vs star s g) in
      search-meaning fuel next.pattern next.value next.star d.2 d.1 (ground (arith, e)) ∙ d.0
]

-- On a value without a `*` the wildcard search computes the glob match: `*` stands for any text, `?` for
-- any character, and every other character for itself.
pub wildcard_match-glob :
    (pattern value : Characters)
    → starless value ≡ true
    → wildcard_match pattern value ≡ glob pattern value
unfolding wildcard_search
wildcard_match-glob pattern value s =
    search-meaning (fuel_for pattern value) pattern value none s tt
      (wildcard_search-wildcard_match pattern value)
