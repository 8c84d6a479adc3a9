-- ===== src/ScopeLock/Registry/Exclusive.antt =====
-- Which leases the registry of crates/syncplus-core/src/scope_lock.rs can hold together.
use sync_plus.Base.{
  ◌≡◌, ◌≢◌, refl, sym, ◌∙◌, ap, subst, false, List, [], ◌∷◌, ◌++◌, filter, length, ◌/=◌, arith, inl,
  inr, Elem, Elem-filter, ok, ℕ, ◌+◌, ◌^◌, ◌≤◌, ◌<◌, nat_eq,
}
use sync_plus.ScopeLock.{
  PeerScope, overlaps, ScopeLockOwner, HeldScope, LockState, new_registry, following_token,
  requested_scopes, extended, acquire, release,
}
use sync_plus.ScopeLock.Registry.{
  overlaps_comm, leased, acquire-IsAcquire, acquire_ok, acquire_ok_state,
}

-- A run asks for scopes, or drops the lease with a token.
pub data LockStep : Type 0 where
  asks : ScopeLockOwner → List PeerScope → LockStep
  drops : ℕ → LockStep

abbrev pub apply : LockState → LockStep → LockState
apply state (asks owner scopes) = (acquire state owner scopes).0
apply state (drops token) = release state token

-- The registry after a sequence of steps, the latest first.
abbrev pub apply_all : LockState → List LockStep → LockState
apply_all state [] = state
apply_all state (s ∷ ss) = apply (apply_all state ss) s

pub record IsExclusive (state : LockState) : Type 0 where
  pub bounded : (x : HeldScope) → Elem x state.held → x.token ≤ state.next_token
  pub apart :
      (x y : HeldScope)
      → Elem x state.held
      → Elem y state.held
      → x.token ≢ y.token
      → overlaps x.scope y.scope ≡ false

following_token_lem : (t : ℕ) → t + 1 < 2 ^ 64 → following_token t ≡ t + 1
following_token_lem t h = ground arith

module _ (state after : LockState) (owner : ScopeLockOwner) (scopes : List PeerScope) (token : ℕ)
    (h : acquire state owner scopes ≡ (after, ok token)) (inv : IsExclusive state)
    (small : state.next_token + 1 < 2 ^ 64) where
  token_above : (token ≡ after.next_token) × (after.next_token ≡ state.next_token + 1)
  token_above =
      let (_, at, is) = acquire_ok_state state after owner scopes token h in
      let next = ap (λ (s : LockState). s.next_token) is in
      (at ∙ sym next, next ∙ following_token_lem state.next_token small)

  ok-bounded : (x : HeldScope) → Elem x after.held → x.token ≤ after.next_token
  ok-bounded x k = elim (((acquire_ok state after owner scopes token h).1 x).0 k) [
    | inl old ↦ omega (arith, inv.bounded x old, token_above.1)
    | inr (t, o, i) ↦ omega (arith, t, token_above.0)
  ]

  ok-apart :
      (x y : HeldScope)
      → Elem x after.held
      → Elem y after.held
      → x.token ≢ y.token
      → overlaps x.scope y.scope ≡ false
  ok-apart x y k l n =
      let (free, holds) = acquire_ok state after owner scopes token h in
      elim ((holds x).0 k) [
        | inl old ↦ elim ((holds y).0 l) [
          | inl old' ↦ inv.apart x y old old' n
          | inr (t, o, i) ↦ overlaps_comm x.scope y.scope ∙ free y.scope i x old
        ]
        | inr (t, o, i) ↦ elim ((holds y).0 l) [
          | inl old ↦ free x.scope i y old
          | inr (t', o', i') ↦ absurd (n (t ∙ sym t'))
        ]
      ]

  ok-IsExclusive : IsExclusive after
  ok-IsExclusive = record { bounded = ok-bounded; apart = ok-apart }

apply-IsExclusive :
    (state : LockState) (s : LockStep)
    → IsExclusive state
    → state.next_token + 1 < 2 ^ 64
    → IsExclusive (apply state s) × ((apply state s).next_token ≤ state.next_token + 1)
unfolding release
apply-IsExclusive state (drops token) inv small = (
  record {
    bounded = λ x k. inv.bounded x (Elem-filter _ x state.held k).0;
    apart =
        λ x y k l. inv.apart x y (Elem-filter _ x state.held k).0 (Elem-filter _ y state.held l).0;
  },
  omega arith,
)
apply-IsExclusive state (asks owner scopes) inv small =
    elim (acquire-IsAcquire state owner scopes) [
      | inl (_, r) ↦ unchanged (ap (λ p. p.0) r)
      | inr (inl (_, _, r)) ↦ unchanged (ap (λ p. p.0) r)
      | inr (inr (_, r)) ↦
          let to = extended state owner (requested_scopes scopes) in
          let token = following_token state.next_token in
          let inv' = ok-IsExclusive state to owner scopes token r inv small in
          let above = token_above state to owner scopes token r inv small in
          subst (λ t. IsExclusive t × (t.next_token ≤ state.next_token + 1)) (sym (ap (λ p. p.0) r))
            (inv', omega (arith, above.1))
    ]
  where
    unchanged :
        (acquire state owner scopes).0 ≡ state
        → IsExclusive (acquire state owner scopes).0
          × ((acquire state owner scopes).0.next_token ≤ state.next_token + 1)
    unchanged e =
        subst (λ t. IsExclusive t × (t.next_token ≤ state.next_token + 1)) (sym e)
          (inv, omega arith)

apply_all_lem :
    (ss : List LockStep)
    → length ss < 2 ^ 64
    → IsExclusive (apply_all new_registry ss) × ((apply_all new_registry ss).next_token ≤ length ss)
apply_all_lem [] h =
    (record { bounded = λ x k. elim k [ ]; apart = λ x y k. elim k [ ] }, omega arith)
apply_all_lem (s ∷ ss) h =
    let (inv, most) = apply_all_lem ss (omega arith) in
    let (inv', most') = apply-IsExclusive (apply_all new_registry ss) s inv (omega (arith, most)) in
    (inv', omega (arith, most, most'))

-- Whatever runs ask for and drop, in any order and with any tokens, the registry never holds two
-- overlapping scopes for different leases, and no token is above the counter. Fewer than 2^64
-- operations have been made, so the counter has not wrapped.
pub apply_all-IsExclusive :
    (ss : List LockStep) → length ss < 2 ^ 64 → IsExclusive (apply_all new_registry ss)
apply_all-IsExclusive ss h = (apply_all_lem ss h).0

filter-apart :
    (token : ℕ) (held : List HeldScope)
    → ((x : HeldScope) → Elem x held → x.token < token)
    → (owner : ScopeLockOwner) (ss : List PeerScope)
    → filter (λ x. x.token /= token) (held ++ leased token owner ss) ≡ held
filter-apart token [] below owner [] = refl
filter-apart token [] below owner (s ∷ ss) = ground (arith, filter-apart token [] below owner ss)
filter-apart token (x ∷ held) below owner ss =
    let first = below x (inl refl) in
    let rest = filter-apart token held (λ y k. below y (inr k)) owner ss in
    ground (arith, first, rest)

-- Dropping a lease right after it was granted gives back what the registry held, element by
-- element, unless the counter is about to wrap.
pub release-acquire :
    (state after : LockState) (owner : ScopeLockOwner) (scopes : List PeerScope) (token : ℕ)
    → acquire state owner scopes ≡ (after, ok token)
    → IsExclusive state
    → state.next_token + 1 < 2 ^ 64
    → (release after token).held ≡ state.held
unfolding release
release-acquire state after owner scopes token h inv small =
    let (_, at, is) = acquire_ok_state state after owner scopes token h in
    let next = following_token_lem state.next_token small in
    let held : after.held ≡ state.held ++ leased token owner (requested_scopes scopes) =
      ap (λ (s : LockState). s.held) is
      ∙ ap (λ t. state.held ++ leased t owner (requested_scopes scopes)) (sym at) in
    ap (filter (λ x. x.token /= token)) held
    ∙ filter-apart token state.held (λ x k. omega (arith, inv.bounded x k, at, next)) owner
        (requested_scopes scopes)
