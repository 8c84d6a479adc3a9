-- ===== src/ScopeLock/Registry.antt =====
-- What each operation of the registry of crates/syncplus-core/src/scope_lock.rs does.
pub mod Exclusive
use sync_plus.Base.{
  ◌≡◌, refl, sym, ◌∙◌, ap, subst, Bool, true, false, Option, none, some, List, [], ◌∷◌, ◌++◌, map,
  filter, ◌==◌, ◌/=◌, if◌then◌else◌, arith, Bool-cases, Option-cases, ◌⊎◌, inl, inr, ◌↔◌, Elem,
  Elem-append, Elem-append_left, Elem-append_right, Elem-find, not-Elem_of_find, Elem-map,
  Elem-map_of, Elem-sort_by, Elem-sort_by_of, Result, ok, err, ℕ, ◌+◌, ◌%◌, ◌^◌, ◌≤◌, ◌<◌, max,
  nat_eq, ok-injective,
}
use sync_plus.Base.Order.{sort_by, insert_by}
use sync_plus.Path.{path_ord, path_eq, component_eq}
use sync_plus.ScopeLock.{
  PeerScope, overlaps, ScopeLockOwner, HeldScope, LockState, ScopeLockConflict, ScopeLockError,
  empty_scopes, conflict, dedup_from, dedup, held_conflict, first_conflict, following_token,
  requested_scopes, extended, acquire_scopes, acquire, scope_eq, namespace_eq,
}

pub overlaps_comm : (s t : PeerScope) → overlaps s t ≡ overlaps t s
overlaps_comm s t = ground arith

dedup_from-Elem :
    (s : PeerScope) (ts : List PeerScope) (x : PeerScope)
    → Elem x (dedup_from s ts)
    → Elem x (s ∷ ts)
dedup_from-Elem s [] x h = h
dedup_from-Elem s (t ∷ ts) x h = ground (arith, dedup_from-Elem t ts x, dedup_from-Elem s ts x)

dedup_from_of-Elem :
    (s : PeerScope) (ts : List PeerScope) (x : PeerScope)
    → Elem x (s ∷ ts)
    → Elem x (dedup_from s ts)
dedup_from_of-Elem s [] x h = h
dedup_from_of-Elem s (t ∷ ts) x h =
    ground (arith, dedup_from_of-Elem t ts x, dedup_from_of-Elem s ts x)

requested-Elem :
    (scopes : List PeerScope) (x : PeerScope) → Elem x (requested_scopes scopes) ↔ Elem x scopes
requested-Elem scopes x = (
  λ h.
      Elem-sort_by (λ (s : PeerScope). s.path) x scopes
        (listed (sort_by (λ (s : PeerScope). s.path) scopes) h),
  λ h.
      kept (sort_by (λ (s : PeerScope). s.path) scopes)
        (Elem-sort_by_of (λ (s : PeerScope). s.path) x scopes h),
)
  where
    listed : (ss : List PeerScope) → Elem x (dedup ss) → Elem x ss
    listed [] h = h
    listed (s ∷ ss) h = dedup_from-Elem s ss x h

    kept : (ss : List PeerScope) → Elem x ss → Elem x (dedup ss)
    kept [] h = h
    kept (s ∷ ss) h = dedup_from_of-Elem s ss x h

-- A reported conflict: a requested scope overlaps a held one, whose owner it names.
pub record IsConflict (held : List HeldScope) (scopes : List PeerScope) (c : ScopeLockConflict)
    : Type 0 where
  pub holder : HeldScope
  pub wanted : Elem c.requested scopes
  pub listed : Elem holder held
  pub same_scope : holder.scope ≡ c.held
  pub same_owner : holder.owner ≡ c.owner
  pub collision : overlaps c.requested c.held ≡ true

first_conflict-some :
    (held : List HeldScope) (ss : List PeerScope) (c : ScopeLockConflict)
    → first_conflict held ss ≡ some c
    → IsConflict held ss c
first_conflict-some held [] c h = absurd (ground (arith, h))
first_conflict-some held (s ∷ ss) c h = elim (Option-cases (held_conflict held s)) [
  | inl e ↦
      let k = first_conflict-some held ss c (ground (arith, h, e)) in
      record {
        holder = k.holder;
        wanted = inr k.wanted;
        listed = k.listed;
        same_scope = k.same_scope;
        same_owner = k.same_owner;
        collision = k.collision;
      }
  | inr (x, e) ↦
      let (listed, hit) = Elem-find (λ k. overlaps s k.scope) held e in
      let (at_s, at_scope, at_owner) : (s ≡ c.requested)
          × (x.scope ≡ c.held)
          × (x.owner ≡ c.owner) =
        ground (arith, h, e) in
      record {
        holder = x;
        wanted = inl at_s;
        listed = listed;
        same_scope = at_scope;
        same_owner = at_owner;
        collision =
            subst (λ t. overlaps c.requested t ≡ true) at_scope
              (subst (λ r. overlaps r x.scope ≡ true) at_s hit);
      }
]

first_conflict-none :
    (held : List HeldScope) (ss : List PeerScope)
    → first_conflict held ss ≡ none
    → (s : PeerScope) → Elem s ss
    → (x : HeldScope) → Elem x held
    → overlaps s x.scope ≡ false
first_conflict-none held [] h s k x l = elim k [ ]
first_conflict-none held (t ∷ ss) h s (inl e) x l =
    subst (λ r. overlaps r x.scope ≡ false) e
      (not-Elem_of_find (λ y. overlaps t y.scope) held (ground (arith, h)) x l)
first_conflict-none held (t ∷ ss) h s (inr k) x l =
    first_conflict-none held ss (ground (arith, h)) s k x l

-- The scopes that a lease adds.
abbrev lease : ℕ → ScopeLockOwner → PeerScope → HeldScope
lease token owner s = record { token = token; scope = s; owner = owner }

abbrev pub leased : ℕ → ScopeLockOwner → List PeerScope → List HeldScope
leased token owner requested = map (lease token owner) requested

-- The three results of the call, by the conflict that the search finds.
abbrev pub IsAcquire :
    LockState
    → ScopeLockOwner
    → List PeerScope
    → Option ScopeLockConflict
    → LockState × Result ScopeLockError ℕ
    → Type 0
IsAcquire state owner requested found result =
    ((requested ≡ []) × (result ≡ (state, err empty_scopes)))
    ⊎ (((c : ScopeLockConflict) × (found ≡ some c) × (result ≡ (state, err (conflict c))))
        ⊎ ((found ≡ none)
            × (result ≡ (extended state owner requested, ok (following_token state.next_token)))))

acquire_scopes-IsAcquire :
    (state : LockState) (owner : ScopeLockOwner) (ss : List PeerScope)
    → IsAcquire state owner ss (first_conflict state.held ss) (acquire_scopes state owner ss)
acquire_scopes-IsAcquire state owner [] = inl (refl, refl)
acquire_scopes-IsAcquire state owner (s ∷ ss) =
    elim (first_conflict state.held (s ∷ ss))
      as (λ o. IsAcquire state owner (s ∷ ss) o (elim o [
        | some c ↦ (state, err (conflict c))
        | none ↦ (extended state owner (s ∷ ss), ok (following_token state.next_token))
      ])) [ none ↦ inr (inr (refl, refl)) | some c ↦ inr (inl (c, refl, refl)) ]

pub acquire-IsAcquire :
    (state : LockState) (owner : ScopeLockOwner) (scopes : List PeerScope)
    → IsAcquire state owner
        (requested_scopes scopes)
        (first_conflict state.held (requested_scopes scopes))
        (acquire state owner scopes)
unfolding acquire
acquire-IsAcquire state owner scopes =
    acquire_scopes-IsAcquire state owner (requested_scopes scopes)

requested-empty : (scopes : List PeerScope) → requested_scopes scopes ≡ [] → scopes ≡ []
requested-empty [] h = refl
requested-empty (s ∷ ss) h = elim (subst (Elem s) h ((requested-Elem (s ∷ ss) s).1 (inl refl))) [ ]

IsConflict-requested :
    (held : List HeldScope) (scopes : List PeerScope) (c : ScopeLockConflict)
    → first_conflict held (requested_scopes scopes) ≡ some c
    → IsConflict held scopes c
IsConflict-requested held scopes c h =
    let k = first_conflict-some held (requested_scopes scopes) c h in
    record {
      holder = k.holder;
      wanted = (requested-Elem scopes c.requested).0 k.wanted;
      listed = k.listed;
      same_scope = k.same_scope;
      same_owner = k.same_owner;
      collision = k.collision;
    }

leased-Elem :
    (token : ℕ) (owner : ScopeLockOwner) (ss : List PeerScope) (x : HeldScope)
    → Elem x (leased token owner ss) ↔ ((x.token ≡ token) × (x.owner ≡ owner) × Elem x.scope ss)
leased-Elem token owner ss x = (to, from)
  where
    to : Elem x (leased token owner ss) → (x.token ≡ token) × (x.owner ≡ owner) × Elem x.scope ss
    to h =
        let (s, k, e) = Elem-map (lease token owner) x ss h in
        (
          ap (λ (y : HeldScope). y.token) (sym e),
          ap (λ (y : HeldScope). y.owner) (sym e),
          subst (λ t. Elem t ss) (ap (λ (y : HeldScope). y.scope) e) k,
        )

    from : (x.token ≡ token) × (x.owner ≡ owner) × Elem x.scope ss → Elem x (leased token owner ss)
    from (e, o, k) =
        let same : lease token owner x.scope ≡ x = ground (arith, e, o) in
        subst (λ y. Elem y (leased token owner ss)) same
          (Elem-map_of (lease token owner) x.scope ss k)

-- The state after a granted request.
pub acquire_ok_state :
    (state after : LockState) (owner : ScopeLockOwner) (scopes : List PeerScope) (token : ℕ)
    → acquire state owner scopes ≡ (after, ok token)
    → (first_conflict state.held (requested_scopes scopes) ≡ none)
      × (token ≡ following_token state.next_token)
      × (after ≡ extended state owner (requested_scopes scopes))
acquire_ok_state state after owner scopes token h = elim (acquire-IsAcquire state owner scopes) [
  | inl (nothing, r) ↦ absurd (ground (arith, h, r))
  | inr (inl (c, found, r)) ↦ absurd (ground (arith, h, r))
  | inr (inr (found, r)) ↦ (found, ground (arith, h, r), ground (arith, h, r))
]

-- A refused request changes nothing. It was refused for having no scopes, or for a conflict: one of
-- the requested scopes overlaps a held one, and the error names both and the holder's owner.
pub acquire_err :
    (state after : LockState) (owner : ScopeLockOwner) (scopes : List PeerScope)
    (e : ScopeLockError)
    → acquire state owner scopes ≡ (after, err e)
    → (after ≡ state)
      × (((scopes ≡ []) × (e ≡ empty_scopes))
          ⊎ ((c : ScopeLockConflict) × (e ≡ conflict c) × IsConflict state.held scopes c))
acquire_err state after owner scopes e h = elim (acquire-IsAcquire state owner scopes) [
  | inl (nothing, r) ↦
      (ground (arith, h, r), inl (requested-empty scopes nothing, ground (arith, h, r)))
  | inr (inl (c, found, r)) ↦ (
    ground (arith, h, r),
    inr (c, ground (arith, h, r), IsConflict-requested state.held scopes c found),
  )
  | inr (inr (found, r)) ↦ absurd (ground (arith, h, r))
]

-- A granted request was for scopes that overlap no held one. Afterwards the registry holds what it
-- held, and every requested scope under the new token and the owner, and nothing else.
pub acquire_ok :
    (state after : LockState) (owner : ScopeLockOwner) (scopes : List PeerScope) (token : ℕ)
    → acquire state owner scopes ≡ (after, ok token)
    → ((s : PeerScope)
        → Elem s scopes
        → (x : HeldScope) → Elem x state.held
        → overlaps s x.scope ≡ false)
      × ((x : HeldScope)
          → Elem x after.held
            ↔ (Elem x state.held ⊎ ((x.token ≡ token) × (x.owner ≡ owner) × Elem x.scope scopes)))
acquire_ok state after owner scopes token h =
    let (found, at, is) = acquire_ok_state state after owner scopes token h in
    let requested = requested_scopes scopes in
    let new_lease = leased (following_token state.next_token) owner requested in
    let held : after.held ≡ state.held ++ new_lease = ap (λ (s : LockState). s.held) is in
    (
      λ s k x l.
          first_conflict-none state.held requested found s ((requested-Elem scopes s).1 k) x l,
      λ x. (
        λ k. elim (Elem-append x state.held new_lease (subst (Elem x) held k)) [
          | inl old ↦ inl old
          | inr new ↦
              let (t, o, i) =
                (leased-Elem (following_token state.next_token) owner requested x).0 new in
              inr (t ∙ sym at, o, (requested-Elem scopes x.scope).0 i)
        ],
        λ k. subst (Elem x) (sym held) (elim k [
          | inl old ↦ Elem-append_left x state.held new_lease old
          | inr (t, o, i) ↦ Elem-append_right x state.held new_lease (
              (leased-Elem (following_token state.next_token) owner requested x).1
                (t ∙ at, o, (requested-Elem scopes x.scope).1 i))
        ]),
      ),
    )
