-- ===== src/Reconciliation/Mirror/Invariant.antt =====
-- The Mirror Invariant: a Mirror run that needs no review has left the peers equal.
use sync_plus.Base.{
  contains-append, ◌≡◌, sym, ◌∙◌, ap, Bool, true, false, ◌||◌, Option, none, some, List, [], ◌∷◌,
  ◌++◌, map, contains, is_some, is_empty, ◌==◌, Elem, inl, inr, arith, Option-cases, Elem-find,
  Elem-append_left, Elem-append_right, option_eq,
}
use sync_plus.Base.Tree.{contains-set_extend}
use sync_plus.Base.Keyed.{is_some-find_key}
use sync_plus.Path.{FilePath, path_eq, path_ord}
use sync_plus.Model.{MetadataRequirements, outcome_eq}
use sync_plus.Inventory.{
  InventoryItem, SourceInventory, inventory_item, InventorySnapshotItem, SourceInventorySnapshot,
  snapshot_lookup, snapshot_item,
}
use sync_plus.MirrorEquality.{equal}
use sync_plus.MirrorEquality.Agreement.{equal_symm, equal_trans}
use sync_plus.Journal.{ActionJournalEntry}
use sync_plus.Finding.{Findings, push_reason, requires_review}
use sync_plus.Conflict.{keep_peer_a, keep_peer_b}
use sync_plus.Resolution.{ConflictResolutionAction}
use sync_plus.MirrorDeletion.{MirrorDeletionResult}
use sync_plus.Reconciliation.{FreshAnalysis, path_journal}
use sync_plus.Reconciliation.Drain.{reconcile_new-settled, is_empty-push_reason}
use sync_plus.Reconciliation.Mirror.{
  reviewed_resolution, expected_a, expected_b, is_deleted, pair_reason, mirror_reason, path_reason,
  reconcile_paths, all_paths, reconcile_mirror,
}

-- Neither peer holds an item, or both hold included items that are equal under the requirements.
abbrev pub SameNow : MetadataRequirements → Option InventoryItem → Option InventoryItem → Type 0
SameNow m none none = Unit
SameNow m none (some y) = ⊥
SameNow m (some x) none = ⊥
SameNow m (some x) (some y) = equal m (snapshot_item x) (snapshot_item y) ≡ true

module _ (m : MetadataRequirements) where
  join :
      (x y z : InventorySnapshotItem) → equal m x y ≡ true → equal m x z ≡ true → equal m y z ≡ true
  join x y z h k = equal_trans m y x z (equal_symm m y x ∙ h) k

  pair_reason-SameNow :
      (a b : Option InventorySnapshotItem) (x y : Option InventoryItem)
      → pair_reason m a b x y ≡ none
      → (is_some a || is_some b) ≡ true
      → SameNow m x y
  unfolding pair_reason
  pair_reason-SameNow (some a) (some b) none y h e = absurd (ground (arith, h))
  pair_reason-SameNow (some a) (some b) (some x) none h e = absurd (ground (arith, h))
  pair_reason-SameNow (some a) (some b) (some x) (some y) h e =
      let left : equal m a (snapshot_item x) ≡ true = ground (arith, h) in
      let right : equal m b (snapshot_item y) ≡ true = ground (arith, h) in
      let both : equal m a b ≡ true = ground (arith, h) in
      join a (snapshot_item x) (snapshot_item y) left
        (equal_trans m a b (snapshot_item y) both right)
  pair_reason-SameNow (some a) none none y h e = absurd (ground (arith, h))
  pair_reason-SameNow (some a) none (some x) none h e = absurd (ground (arith, h))
  pair_reason-SameNow (some a) none (some x) (some y) h e =
      join a (snapshot_item x) (snapshot_item y) (ground (arith, h)) (ground (arith, h))
  pair_reason-SameNow none (some b) none none h e = absurd (ground (arith, h))
  pair_reason-SameNow none (some b) none (some y) h e = absurd (ground (arith, h))
  pair_reason-SameNow none (some b) (some x) none h e = absurd (ground (arith, h))
  pair_reason-SameNow none (some b) (some x) (some y) h e =
      join b (snapshot_item x) (snapshot_item y) (ground (arith, h)) (ground (arith, h))
  pair_reason-SameNow none none x y h e = cc

  gone-SameNow : (x y : Option InventoryItem) → (is_some x || is_some y) ≡ false → SameNow m x y
  gone-SameNow none none h = tt
  gone-SameNow none (some y) h = cc
  gone-SameNow (some x) y h = cc

  mirror_reason-SameNow :
      (entries : List ActionJournalEntry) (deleted : Bool) (a b : Option InventorySnapshotItem)
      (x y : Option InventoryItem)
      → mirror_reason m entries deleted a b x y ≡ none
      → (is_some a || is_some b) ≡ true
      → SameNow m x y
  unfolding mirror_reason
  mirror_reason-SameNow entries true a b x y h e = gone-SameNow x y (ground (arith, h))
  mirror_reason-SameNow entries false a b x y h e =
      pair_reason-SameNow a b x y (ground (arith, h)) e

find-held :
    (inventory : SourceInventory) (path : FilePath) {x : InventoryItem}
    → inventory_item inventory path ≡ some x
    → Elem x inventory.items × (x.relative_path ≡ path)
find-held inventory path h =
    let found = Elem-find (λ item. item.relative_path == path) inventory.items h in
    (found.0, ground (arith, found.1))

module _ (m : MetadataRequirements) (a b : SourceInventorySnapshot) (current : FreshAnalysis)
    (journal : List ActionJournalEntry) (resolutions : List ConflictResolutionAction)
    (deletions : List MirrorDeletionResult) where
  reconcile_paths-settled :
      (paths : List FilePath) (fs : Findings)
      → is_empty (reconcile_paths m a b current journal resolutions deletions paths fs) ≡ true
      → (is_empty fs ≡ true)
        × ((p : FilePath)
            → contains paths p ≡ true
            → path_reason m a b current journal resolutions deletions p ≡ none)
  unfolding reconcile_paths
  reconcile_paths-settled [] fs h = (h, λ p k. cc)
  reconcile_paths-settled (q ∷ paths) fs h =
      let reason = path_reason m a b current journal resolutions deletions q in
      let (pushed, rest) = reconcile_paths-settled paths (push_reason fs q reason) h in
      let (before, settled) = is_empty-push_reason fs q reason pushed in
      (before, λ p k. ground (arith, k, settled, rest p))

  abbrev expected : List FilePath
  expected = all_paths m a b current journal resolutions deletions

  abbrev snapshot_path : InventorySnapshotItem → FilePath
  snapshot_path item = item.relative_path

  -- A frozen path is one at which one of the frozen inventories finds an item.
  contains-all_paths :
      (path : FilePath)
      → contains expected path
        ≡ (is_some (snapshot_lookup a path) || is_some (snapshot_lookup b path))
  contains-all_paths path = ground (
    arith,
    contains-set_extend [] (map snapshot_path a.items ++ map snapshot_path b.items) path,
    contains-append path (map snapshot_path a.items) (map snapshot_path b.items),
    is_some-find_key snapshot_path path a.items,
    is_some-find_key snapshot_path path b.items,
  )

  -- A kept peer has an item at the path, as it has where both peers hold conflicting items.
  abbrev pub KeepsExisting : Type 0
  KeepsExisting =
      (path : FilePath) (action : ConflictResolutionAction)
      → reviewed_resolution resolutions path ≡ some action
      → (action.resolution ≡ keep_peer_a → is_some (snapshot_lookup a path) ≡ true)
        × (action.resolution ≡ keep_peer_b → is_some (snapshot_lookup b path) ≡ true)

  expected-one :
      (path : FilePath)
      → KeepsExisting
      → contains expected path ≡ true
      → (is_some (expected_a (reviewed_resolution resolutions path) a b path)
          || is_some (expected_b (reviewed_resolution resolutions path) a b path))
        ≡ true
  expected-one path keeps k = elim (Option-cases (reviewed_resolution resolutions path)) [
    | inl e ↦ rw e (ground (arith, k, contains-all_paths path))
    | inr (action, e) ↦ rw e (ground (arith, k, contains-all_paths path, keeps path action e))
  ]

  module _ (keeps : KeepsExisting)
      (settled : requires_review (reconcile_mirror m a b current journal resolutions deletions)
        ≡ false) where
    all-settled :
        (is_empty (reconcile_paths m a b current journal resolutions deletions expected []) ≡ true)
        × ((x : InventoryItem)
            → Elem x (current.source_inventory.items ++ current.destination_inventory.items)
            → contains expected x.relative_path ≡ true)
    unfolding reconcile_mirror
    all-settled =
        reconcile_new-settled expected
          (current.source_inventory.items ++ current.destination_inventory.items)
          (reconcile_paths m a b current journal resolutions deletions expected [])
          (ground (arith, settled))

    known_a :
        (path : FilePath) (x : InventoryItem)
        → inventory_item current.source_inventory path ≡ some x
        → contains expected path ≡ true
    known_a path x h =
        let (held, at) = find-held current.source_inventory path h in
        ap (contains expected) (sym at)
        ∙ all-settled.1 x (
            Elem-append_left x current.source_inventory.items current.destination_inventory.items
              held)

    known_b :
        (path : FilePath) (x : InventoryItem)
        → inventory_item current.destination_inventory path ≡ some x
        → contains expected path ≡ true
    known_b path x h =
        let (held, at) = find-held current.destination_inventory path h in
        ap (contains expected) (sym at)
        ∙ all-settled.1 x (
            Elem-append_right x current.source_inventory.items current.destination_inventory.items
              held)

    path-SameNow :
        (path : FilePath)
        → contains expected path ≡ true
        → SameNow m
            (inventory_item current.source_inventory path)
            (inventory_item current.destination_inventory path)
    unfolding path_reason
    path-SameNow path k =
        mirror_reason-SameNow m (path_journal journal path) (is_deleted deletions path)
          (expected_a (reviewed_resolution resolutions path) a b path)
          (expected_b (reviewed_resolution resolutions path) a b path)
          (inventory_item current.source_inventory path)
          (inventory_item current.destination_inventory path)
          ((reconcile_paths-settled expected [] all-settled.0).1 path k) (expected-one path keeps k)

    -- A Mirror run that needs no review restored the Mirror Invariant, if every resolution that
    -- keeps a peer keeps an item that the peer had: at every path either both peers hold nothing,
    -- or both hold included items that are equal under the run's requirements.
    pub reconcile_mirror-SameNow :
        (path : FilePath)
        → SameNow m
            (inventory_item current.source_inventory path)
            (inventory_item current.destination_inventory path)
    reconcile_mirror-SameNow path =
        elim (Option-cases (inventory_item current.source_inventory path)) [
          | inr (x, e) ↦ path-SameNow path (known_a path x e)
          | inl none_a ↦ elim (Option-cases (inventory_item current.destination_inventory path)) [
            | inr (y, e) ↦ path-SameNow path (known_b path y e)
            | inl none_b ↦ rw (none_a, none_b) tt
          ]
        ]
