-- ===== src/Baseline/Settled.antt =====
-- Which paths `from_reconciled_inventories` admits to the baseline.
use mathlib.Core.Path.{ap₂}
use mathlib.Core.Option.{some-injective}
use sync_plus.Base.{
  ◌≡◌, ◌↔◌, refl, ◌∙◌, ap, sym, true, false, ◌||◌, Option, none, some, List, [], ◌∷◌, ◌++◌, Text,
  arith, if◌then◌else◌, contains, Option-cases, inl, inr,
}
use sync_plus.Base.Keyed.{IsDistinct, find_key, key-find_key, is_some-find_key}
use sync_plus.Base.Tree.{
  IsIncreasing, set_extend, contains-set_extend, set_extend-IsIncreasing, contains-above,
}
use sync_plus.Path.{FilePath, path_eq, path_ord}
use sync_plus.Model.{MetadataRequirements, included, outcome_eq}
use sync_plus.Inventory.{InventorySnapshotItem, SourceInventorySnapshot, snapshot_lookup}
use sync_plus.MirrorEquality.{equal}
use sync_plus.MirrorEquality.Agreement.{equal_iff}
use sync_plus.Journal.{ActionJournalEntry}
use sync_plus.Finding.{CompletionReconciliation, is_flagged}
use sync_plus.Baseline.{
  SyncBaselineItem, from_snapshot, baseline_item, journal_blocked, settled_pair, settle, item_paths,
  from_reconciled_inventories,
}
use sync_plus.Baseline.Recorded.{
  snapshot_path, included_at, recorded, baseline_item-from_inventories,
}

module _ (a b : SourceInventorySnapshot) (journal : List ActionJournalEntry)
    (r : CompletionReconciliation) (m : MetadataRequirements) where
  -- Why a path may enter the baseline.
  pub record MaySettle (path : FilePath) (left right : InventorySnapshotItem) : Type 0 where
    pub at_a : snapshot_lookup a path ≡ some left
    pub at_b : snapshot_lookup b path ≡ some right
    pub same : equal m left right ≡ true
    pub unflagged : is_flagged path r.findings ≡ false
    pub unblocked : journal_blocked journal path ≡ false

  abbrev pair_at : FilePath → Option (InventorySnapshotItem × InventorySnapshotItem)
  pair_at = settled_pair a b journal r m

  settled_pair-MaySettle :
      (path : FilePath) (left right : InventorySnapshotItem)
      → pair_at path ≡ some (left, right)
      → MaySettle path left right
  unfolding settled_pair
  settled_pair-MaySettle path left right h = ground arith

  settled_pair_of-MaySettle :
      (path : FilePath) (left right : InventorySnapshotItem)
      → MaySettle path left right
      → pair_at path ≡ some (left, right)
  unfolding settled_pair
  settled_pair_of-MaySettle path left right s =
      ground (arith, s.at_a, s.at_b, s.same, s.unflagged, s.unblocked)

  abbrev first :
      Option (InventorySnapshotItem × InventorySnapshotItem) → Option InventorySnapshotItem
  first none = none
  first (some (left, right)) = some left

  abbrev second :
      Option (InventorySnapshotItem × InventorySnapshotItem) → Option InventorySnapshotItem
  second none = none
  second (some (left, right)) = some right

  pair_at-paths :
      (path : FilePath) (left right : InventorySnapshotItem)
      → pair_at path ≡ some (left, right)
      → (left.relative_path ≡ path) × (right.relative_path ≡ path)
  pair_at-paths path left right h =
      let s = settled_pair-MaySettle path left right h in
      (
        key-find_key snapshot_path path a.items s.at_a,
        key-find_key snapshot_path path b.items s.at_b,
      )

  -- The loop pushes, for each of its paths, the pair of that path and no other.
  find-settle :
      (path : FilePath) (paths : List FilePath)
      → IsIncreasing paths
      → (find_key snapshot_path path (settle a b journal r m paths).0
          ≡ (if contains paths path then first (pair_at path) else none))
        × (find_key snapshot_path path (settle a b journal r m paths).1
            ≡ (if contains paths path then second (pair_at path) else none))
  unfolding settle
  find-settle path [] u = (refl, refl)
  find-settle path (q ∷ paths) u = elim (Option-cases (pair_at q)) [
    | inl e ↦ rw e (ground (arith, contains-above q paths u.0, find-settle path paths u.1))
    | inr (pair, e) ↦ rw e (
        ground (
          arith,
          contains-above q paths u.0,
          pair_at-paths q pair.0 pair.1 e,
          find-settle path paths u.1,
        ))
  ]

  settle-HasDistinctPaths :
      (paths : List FilePath)
      → IsIncreasing paths
      → IsDistinct snapshot_path (settle a b journal r m paths).0
        × IsDistinct snapshot_path (settle a b journal r m paths).1
  unfolding settle
  settle-HasDistinctPaths [] u = (tt, tt)
  settle-HasDistinctPaths (q ∷ paths) u = elim (Option-cases (pair_at q)) [
    | inl e ↦ rw e (settle-HasDistinctPaths paths u.1)
    | inr (pair, e) ↦ rw e (
        ground (
          arith,
          contains-above q paths u.0,
          pair_at-paths q pair.0 pair.1 e,
          find-settle q paths u.1,
          is_some-find_key snapshot_path q (settle a b journal r m paths).0,
          is_some-find_key snapshot_path q (settle a b journal r m paths).1,
          settle-HasDistinctPaths paths u.1,
        ))
  ]

  abbrev all_paths : List FilePath
  all_paths = set_extend [] (item_paths a ++ item_paths b)

  contains-append :
      (path : FilePath) (xs ys : List FilePath)
      → contains (xs ++ ys) path ≡ (contains xs path || contains ys path)
  contains-append path [] ys = refl
  contains-append path (x ∷ xs) ys = ground (arith, contains-append path xs ys)

  -- Only a path of one of the inventories has a pair.
  pair_at-outside : (path : FilePath) → contains all_paths path ≡ false → pair_at path ≡ none
  pair_at-outside path h = elim (Option-cases (pair_at path)) [
    | inl e ↦ e
    | inr (pair, e) ↦ ground (
      arith,
      (settled_pair-MaySettle path pair.0 pair.1 e).at_a,
      is_some-find_key snapshot_path path a.items,
      contains-append path (item_paths a) (item_paths b),
      contains-set_extend [] (item_paths a ++ item_paths b) path,
    )
  ]

  pair_at-included :
      (path : FilePath) (left right : InventorySnapshotItem)
      → pair_at path ≡ some (left, right)
      → (left.outcome ≡ included) × (right.outcome ≡ included)
  pair_at-included path left right h =
      let s = (equal_iff m left right).0 (settled_pair-MaySettle path left right h).same in
      (s.left_included, s.right_included)

  abbrev entry_of :
      FilePath → Option (InventorySnapshotItem × InventorySnapshotItem) → Option SyncBaselineItem
  entry_of path none = none
  entry_of path (some (left, right)) = recorded path (some left) (some right)

  recorded-pair :
      (path : FilePath) (pair : Option (InventorySnapshotItem × InventorySnapshotItem))
      → recorded path (first pair) (second pair) ≡ entry_of path pair
  recorded-pair path none = refl
  recorded-pair path (some (left, right)) = refl

  entry_of-inverse :
      (path : FilePath) (item : SyncBaselineItem)
      → entry_of path (pair_at path) ≡ some item
      → (left : InventorySnapshotItem) × (right : InventorySnapshotItem) × MaySettle path left right
        × (item ≡ record {
          relative_path = path;
          peer_a = some (from_snapshot left);
          peer_b = some (from_snapshot right);
        })
  entry_of-inverse path item h = elim (Option-cases (pair_at path)) [
    | inl e ↦ cc (ap (entry_of path) e)
    | inr ((left, right), e) ↦ (
      left,
      right,
      settled_pair-MaySettle path left right e,
      some-injective _ _ (sym h ∙ ap (entry_of path) e),
    )
  ]

  all_paths-IsIncreasing : IsIncreasing all_paths
  all_paths-IsIncreasing = set_extend-IsIncreasing [] (item_paths a ++ item_paths b) tt

  abbrev settled_a : SourceInventorySnapshot
  settled_a = record a { items = (settle a b journal r m all_paths).0 }

  abbrev settled_b : SourceInventorySnapshot
  settled_b = record b { items = (settle a b journal r m all_paths).1 }

  included_at-settled :
      (path : FilePath)
      → (included_at settled_a path ≡ first (pair_at path))
        × (included_at settled_b path ≡ second (pair_at path))
  included_at-settled path = elim (Option-cases (pair_at path)) [
    | inl e ↦ rw e (ground (arith, e, find-settle path all_paths all_paths-IsIncreasing))
    | inr (pair, e) ↦ rw e (
        ground (
          arith,
          e,
          pair_at-outside path,
          pair_at-included path pair.0 pair.1 e,
          find-settle path all_paths all_paths-IsIncreasing,
        ))
  ]

  -- The entry of a path is the pair that it settles.
  baseline_item-settled :
      (name : Text) (path : FilePath)
      → baseline_item (from_reconciled_inventories name a b journal r m) path
        ≡ entry_of path (pair_at path)
  unfolding from_reconciled_inventories
  baseline_item-settled name path =
      let distinct = settle-HasDistinctPaths all_paths all_paths-IsIncreasing in
      baseline_item-from_inventories name settled_a settled_b m path distinct.0 distinct.1
      ∙ ap₂ (recorded path) (included_at-settled path).0 (included_at-settled path).1
      ∙ recorded-pair path (pair_at path)

  -- A path enters the baseline exactly when both peers hold included items there that are equal
  -- under Mirror equality, no finding names the path, and every journal entry of it completed. Its
  -- entry then holds the state of both sides.
  pub baseline_item-from_reconciled_inventories :
      (name : Text) (path : FilePath) (item : SyncBaselineItem)
      → (baseline_item (from_reconciled_inventories name a b journal r m) path ≡ some item) ↔ (
          (left : InventorySnapshotItem) × (right : InventorySnapshotItem) × MaySettle path left
            right
          × (item ≡ record {
            relative_path = path;
            peer_a = some (from_snapshot left);
            peer_b = some (from_snapshot right);
          }))
  baseline_item-from_reconciled_inventories name path item = (
    λ h. entry_of-inverse path item (sym (baseline_item-settled name path) ∙ h),
    λ s.
        baseline_item-settled name path
        ∙ ap (entry_of path) (settled_pair_of-MaySettle path s.0 s.1 s.2)
        ∙ ap some (sym s.3),
  )
