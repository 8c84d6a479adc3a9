-- ===== src/Baseline/Compare/Status.antt =====
-- The comparison of a later pair of inventories with a baseline that was recorded from an earlier
-- pair (baseline.rs).
use mathlib.Core.Option
use mathlib.Core.Option.{or_else, bind}
use sync_plus.Base.{
  ◌≡◌, refl, ◌∙◌, ap, ◌||◌, Option, none, some, List, [], ◌∷◌, map, Text, arith, if◌then◌else◌,
  filter, contains, is_some,
}
use sync_plus.Base.Keyed.{map_get-collect_by, filter-IsDistinct}
use sync_plus.Base.Tree.{
  map_get, set_extend, contains-set_extend, set_extend-IsIncreasing, IsIncreasing,
}
use sync_plus.Path.{FilePath, path_eq, path_ord}
use sync_plus.Model.{MetadataRequirements, included, outcome_eq}
use sync_plus.Inventory.{InventorySnapshotItem, SourceInventorySnapshot, is_included}
use sync_plus.MirrorEquality.{equal}
use sync_plus.Baseline.{
  SyncBaselineItemState, from_snapshot, SyncBaseline, from_inventories, SyncBaselineItemStatus,
  unchanged, new, changed, absent, SyncBaselineComparison,
}
use sync_plus.Baseline.Compare.{
  compare_side, included_map, keys, side_a, side_b, compare_path, baseline_path, compared_paths,
  compare,
}
use sync_plus.Baseline.Recorded.{
  snapshot_path, HasDistinctPaths, included_at, included_at-find_key,
  baseline_item-from_inventories,
}

or_else-none : {A : Type 0} (x : Option A) → or_else x none ≡ x
unfolding or_else
or_else-none none = refl
or_else-none (some a) = refl

pub map_get-included_map :
    (peer : SourceInventorySnapshot) (path : FilePath)
    → HasDistinctPaths peer
    → map_get path (included_map peer) ≡ included_at peer path
unfolding map_get
map_get-included_map peer path u =
    map_get-collect_by snapshot_path path (filter is_included peer.items) []
      (filter-IsDistinct snapshot_path is_included peer.items u)
    ∙ or_else-none _
    ∙ included_at-find_key peer path u

contains-keys :
    (path : FilePath) (m : List (FilePath × InventorySnapshotItem))
    → contains (keys m) path ≡ is_some (map_get path m)
unfolding map_get
contains-keys path [] = refl
contains-keys path ((j, x) ∷ m) = ground (arith, contains-keys path m)

abbrev pub compared :
    SyncBaseline → SourceInventorySnapshot → SourceInventorySnapshot → List FilePath
compared baseline a b = compared_paths baseline (included_map a) (included_map b)

abbrev pub comparison_path : SyncBaselineComparison → FilePath
comparison_path c = c.relative_path

pub paths-compare_path :
    (baseline : SyncBaseline) (m n : List (FilePath × InventorySnapshotItem))
    (paths : List FilePath)
    → map comparison_path (map (compare_path baseline m n) paths) ≡ paths
unfolding compare_path
paths-compare_path baseline m n [] = refl
paths-compare_path baseline m n (p ∷ paths) =
    ap (λ (ps : List FilePath). p ∷ ps) (paths-compare_path baseline m n paths)

-- A comparison lists each path once, in path order, and lists exactly the paths that the baseline
-- holds or that one of the inventories includes.
pub compare-covers :
    (baseline : SyncBaseline) (a b : SourceInventorySnapshot) (path : FilePath)
    → HasDistinctPaths a
    → HasDistinctPaths b
    → IsIncreasing (map comparison_path (compare baseline a b))
      × (contains (map comparison_path (compare baseline a b)) path ≡ (
          contains (map baseline_path baseline.items) path
          || is_some (included_at a path)
          || is_some (included_at b path)))
unfolding compare compared_paths
compare-covers baseline a b path ua ub =
    let current_a = included_map a in
    let current_b = included_map b in
    let listed = paths-compare_path baseline current_a current_b (compared baseline a b) in
    let held = set_extend [] (map baseline_path baseline.items) in
    (
      rw listed (
          set_extend-IsIncreasing (set_extend held (keys current_a)) (keys current_b) (
            set_extend-IsIncreasing held (keys current_a)
              (set_extend-IsIncreasing [] (map baseline_path baseline.items) tt))),
      ground (
        arith,
        ap (λ (ps : List FilePath). contains ps path) listed,
        contains-set_extend (set_extend held (keys current_a)) (keys current_b) path,
        contains-set_extend held (keys current_a) path,
        contains-set_extend [] (map baseline_path baseline.items) path,
        contains-keys path current_a,
        contains-keys path current_b,
        map_get-included_map a path ua,
        map_get-included_map b path ub,
      ),
    )

-- The status of a path that held `old` when the baseline was recorded and holds `now`.
abbrev pub transition :
    MetadataRequirements
    → Option InventorySnapshotItem
    → Option InventorySnapshotItem
    → SyncBaselineItemStatus
transition m none none = unchanged
transition m none (some now) = new
transition m (some old) none = absent
transition m (some old) (some now) = if equal m old now then unchanged else changed

included_at-included :
    (peer : SourceInventorySnapshot) (path : FilePath) {item : InventorySnapshotItem}
    → included_at peer path ≡ some item
    → item.outcome ≡ included
included_at-included peer path h = ground arith

compare_side-transition :
    (m : MetadataRequirements) (old now : Option InventorySnapshotItem)
    → ((x : InventorySnapshotItem) → old ≡ some x → x.outcome ≡ included)
    → ((x : InventorySnapshotItem) → now ≡ some x → x.outcome ≡ included)
    → compare_side m (Option.map from_snapshot old) now ≡ transition m old now
unfolding compare_side equal
compare_side-transition m none none ho hn = refl
compare_side-transition m none (some now) ho hn = refl
compare_side-transition m (some old) none ho hn = refl
compare_side-transition m (some old) (some now) ho hn = ground (arith, ho old, hn now)

module _ (name : Text) (m : MetadataRequirements) (a b : SourceInventorySnapshot) (path : FilePath)
    (ua : HasDistinctPaths a) (ub : HasDistinctPaths b) where
  pub side_a-from_inventories :
      side_a (from_inventories name a b m) path ≡ Option.map from_snapshot (included_at a path)
  unfolding bind
  side_a-from_inventories = ground (arith, baseline_item-from_inventories name a b m path ua ub)

  pub side_b-from_inventories :
      side_b (from_inventories name a b m) path ≡ Option.map from_snapshot (included_at b path)
  unfolding bind
  side_b-from_inventories = ground (arith, baseline_item-from_inventories name a b m path ua ub)

-- The status of one side, from what the baseline says of it.
compare_side-live :
    (m : MetadataRequirements) (old now : SourceInventorySnapshot) (path : FilePath)
    {side : Option SyncBaselineItemState}
    → HasDistinctPaths now
    → side ≡ Option.map from_snapshot (included_at old path)
    → compare_side m side (map_get path (included_map now))
      ≡ transition m (included_at old path) (included_at now path)
compare_side-live m old now path u h =
    rw (h, map_get-included_map now path u)
      (compare_side-transition m (included_at old path) (included_at now path)
        (λ x h. included_at-included old path h) (λ x h. included_at-included now path h))

pub compare_path-from_inventories :
    (name : Text) (m : MetadataRequirements) (a b a' b' : SourceInventorySnapshot) (path : FilePath)
    → HasDistinctPaths a
    → HasDistinctPaths b
    → HasDistinctPaths a'
    → HasDistinctPaths b'
    → compare_path (from_inventories name a b m) (included_map a') (included_map b') path ≡ record {
      relative_path = path;
      peer_a = transition m (included_at a path) (included_at a' path);
      peer_b = transition m (included_at b path) (included_at b' path);
    }
unfolding compare_path from_inventories
compare_path-from_inventories name m a b a' b' path ua ub ua' ub' = λ i. record {
  relative_path = path;
  peer_a = compare_side-live m a a' path ua' (side_a-from_inventories name m a b path ua ub) i;
  peer_b = compare_side-live m b b' path ub' (side_b-from_inventories name m a b path ua ub) i;
}
