-- ===== src/Baseline/Compare/Live.antt =====
-- What `SyncBaseline::compare` of baseline.rs reports against a baseline that was recorded from two
-- inventories.
use sync_plus.Base.{
  ◌≡◌, refl, sym, ◌∙◌, ap, ◌||◌, Option, none, some, List, [], ◌∷◌, map, Text, arith, if◌then◌else◌,
  contains, is_some, All,
}
use sync_plus.Base.Keyed.{find_key, is_some-find_key}
use sync_plus.Path.{FilePath, path_eq, path_ord}
use sync_plus.Model.{MetadataRequirements, outcome_eq}
use sync_plus.Inventory.{InventorySnapshotItem, SourceInventorySnapshot}
use sync_plus.MirrorEquality.Agreement.{IsObserved, equal_self}
use sync_plus.Baseline.{SyncBaseline, from_inventories, unchanged, SyncBaselineComparison}
use sync_plus.Baseline.Compare.{included_map, compare_path, baseline_path, compare}
use sync_plus.Baseline.Recorded.{
  HasDistinctPaths, included_at, baseline_item-from_inventories, recorded,
}
use sync_plus.Baseline.Compare.Status.{
  comparison_path, paths-compare_path, compared, compare-covers, compare_path-from_inventories,
  transition,
}

find_key-compare_path :
    (baseline : SyncBaseline) (m n : List (FilePath × InventorySnapshotItem)) (path : FilePath)
    (paths : List FilePath)
    → find_key comparison_path path (map (compare_path baseline m n) paths)
      ≡ (if contains paths path then some (compare_path baseline m n path) else none)
unfolding compare_path
find_key-compare_path baseline m n path [] = refl
find_key-compare_path baseline m n path (p ∷ paths) =
    ground (arith, find_key-compare_path baseline m n path paths)

-- What a comparison reports at a path.
abbrev pub compared_at :
    SyncBaseline
    → SourceInventorySnapshot
    → SourceInventorySnapshot
    → FilePath
    → Option SyncBaselineComparison
compared_at baseline a b path = find_key comparison_path path (compare baseline a b)

contains-baseline_path :
    (name : Text) (m : MetadataRequirements) (a b : SourceInventorySnapshot) (path : FilePath)
    → HasDistinctPaths a
    → HasDistinctPaths b
    → contains (map baseline_path (from_inventories name a b m).items) path
      ≡ (is_some (included_at a path) || is_some (included_at b path))
contains-baseline_path name m a b path ua ub =
    sym (is_some-find_key baseline_path path (from_inventories name a b m).items)
    ∙ ap is_some (baseline_item-from_inventories name a b m path ua ub)
    ∙ is_some-recorded (included_at a path) (included_at b path)
  where
    is_some-recorded :
        (x y : Option InventorySnapshotItem)
        → is_some (recorded path x y) ≡ (is_some x || is_some y)
    is_some-recorded none none = refl
    is_some-recorded (some x) none = refl
    is_some-recorded none (some y) = refl
    is_some-recorded (some x) (some y) = refl

-- A later comparison with `a'` and `b'` against a baseline recorded from the inventories `a` and `b`
-- reports a path exactly if one of the four includes it, and then says for each peer whether it
-- appeared, went, stayed equal under Mirror equality, or changed. None of the four inventories lists
-- a path twice.
pub compare-from_inventories :
    (name : Text) (m : MetadataRequirements) (a b a' b' : SourceInventorySnapshot) (path : FilePath)
    → HasDistinctPaths a
    → HasDistinctPaths b
    → HasDistinctPaths a'
    → HasDistinctPaths b'
    → compared_at (from_inventories name a b m) a' b' path ≡ (
        if is_some (included_at a path)
          || is_some (included_at b path)
          || is_some (included_at a' path)
          || is_some (included_at b' path)
        then some (record {
          relative_path = path;
          peer_a = transition m (included_at a path) (included_at a' path);
          peer_b = transition m (included_at b path) (included_at b' path);
        })
        else none)
unfolding compare
compare-from_inventories name m a b a' b' path ua ub ua' ub' =
    let baseline = from_inventories name a b m in
    let covers = (compare-covers baseline a' b' path ua' ub').1 in
    let paths =
      paths-compare_path baseline (included_map a') (included_map b') (compared baseline a' b') in
    find_key-compare_path baseline (included_map a') (included_map b') path
      (compared baseline a' b')
    ∙ rw
        (
          compare_path-from_inventories name m a b a' b' path ua ub ua' ub',
          sym (ap (λ (ps : List FilePath). contains ps path) paths) ∙ covers,
          contains-baseline_path name m a b path ua ub,
        )
        (ground arith)

transition_self :
    (m : MetadataRequirements) (old : Option InventorySnapshotItem)
    → ((x : InventorySnapshotItem) → old ≡ some x → IsObserved m x)
    → transition m old old ≡ unchanged
transition_self m none h = refl
transition_self m (some x) h = rw ((equal_self m x).1 (h x refl))

abbrev pub IsUnchanged : SyncBaselineComparison → Type 0
IsUnchanged c = (c.peer_a ≡ unchanged) × (c.peer_b ≡ unchanged)

All-map_paths :
    (f : FilePath → SyncBaselineComparison) (paths : List FilePath)
    → ((path : FilePath) → IsUnchanged (f path))
    → All IsUnchanged (map f paths)
All-map_paths f [] h = tt
All-map_paths f (path ∷ paths) h = (h path, All-map_paths f paths h)

-- A baseline recorded from two inventories reports no change against the same inventories, if the
-- requirements can be checked and the content of each included regular file was read.
pub compare_again :
    (name : Text) (m : MetadataRequirements) (a b : SourceInventorySnapshot)
    → HasDistinctPaths a
    → HasDistinctPaths b
    → ((path : FilePath) (x : InventorySnapshotItem) → included_at a path ≡ some x → IsObserved m x)
    → ((path : FilePath) (x : InventorySnapshotItem) → included_at b path ≡ some x → IsObserved m x)
    → All IsUnchanged (compare (from_inventories name a b m) a b)
unfolding compare
compare_again name m a b ua ub oa ob =
    All-map_paths _ (compared (from_inventories name a b m) a b) λ path.
      let c = compare_path-from_inventories name m a b a b path ua ub ua ub in
      (
        ap (λ (c : SyncBaselineComparison). c.peer_a) c ∙ transition_self m _ (oa path),
        ap (λ (c : SyncBaselineComparison). c.peer_b) c ∙ transition_self m _ (ob path),
      )
