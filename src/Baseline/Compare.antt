-- ===== src/Baseline/Compare.antt =====
-- `SyncBaseline::compare` and `compare_side`: the status of every known path on both peers.
pub mod Status
pub mod Live
use mathlib.Core.Option
use sync_plus.Base.{
  ◌≡◌, Bool, true, false, Option, none, some, List, [], ◌∷◌, map, filter, if◌then◌else◌,
}
use sync_plus.Base.Keyed.{collect_by}
use sync_plus.Base.Tree.{map_get, set_extend}
use sync_plus.Path.{FilePath, path_eq, path_ord}
use sync_plus.Model.{MetadataRequirements}
use sync_plus.Inventory.{InventorySnapshotItem, SourceInventorySnapshot, is_included}
use sync_plus.Baseline.{
  SyncBaselineItemState, from_snapshot, state_equal, SyncBaselineItem, SyncBaseline, baseline_item,
  SyncBaselineItemStatus, unchanged, new, changed, absent, SyncBaselineComparison,
}

unfoldable pub compare_side :
    MetadataRequirements
    → Option SyncBaselineItemState
    → Option InventorySnapshotItem
    → SyncBaselineItemStatus
compare_side equality none none = unchanged
compare_side equality none (some current) = new
compare_side equality (some baseline) none = absent
compare_side equality (some baseline) (some current) =
    if state_equal equality baseline (from_snapshot current) then unchanged else changed

abbrev pub snapshot_path : InventorySnapshotItem → FilePath
snapshot_path item = item.relative_path

-- `current_a` and `current_b`: the included items by path.
abbrev pub included_map : SourceInventorySnapshot → List (FilePath × InventorySnapshotItem)
included_map peer = collect_by snapshot_path (filter is_included peer.items) []

abbrev keys : {V : Type 0} → List (FilePath × V) → List FilePath
keys [] = []
keys ((path, value) ∷ m) = path ∷ keys m

abbrev pub side_a : SyncBaseline → FilePath → Option SyncBaselineItemState
side_a baseline path = Option.bind (baseline_item baseline path) (λ item. item.peer_a)

abbrev pub side_b : SyncBaseline → FilePath → Option SyncBaselineItemState
side_b baseline path = Option.bind (baseline_item baseline path) (λ item. item.peer_b)

-- The closure that `compare` maps over the paths.
unfoldable pub compare_path :
    SyncBaseline
    → List (FilePath × InventorySnapshotItem)
    → List (FilePath × InventorySnapshotItem)
    → FilePath
    → SyncBaselineComparison
unfolding compare_side
compare_path baseline current_a current_b path = record {
  relative_path = path;
  peer_a = compare_side baseline.metadata (side_a baseline path) (map_get path current_a);
  peer_b = compare_side baseline.metadata (side_b baseline path) (map_get path current_b);
}

abbrev baseline_path : SyncBaselineItem → FilePath
baseline_path item = item.relative_path

unfoldable pub compared_paths :
    SyncBaseline
    → List (FilePath × InventorySnapshotItem)
    → List (FilePath × InventorySnapshotItem)
    → List FilePath
unfolding set_extend
compared_paths baseline current_a current_b =
    let paths = set_extend [] (map baseline_path baseline.items) in
    set_extend (set_extend paths (keys current_a)) (keys current_b)

unfoldable pub compare :
    SyncBaseline → SourceInventorySnapshot → SourceInventorySnapshot → List SyncBaselineComparison
unfolding compare_path compared_paths
compare baseline peer_a peer_b =
    let current_a = included_map peer_a in
    let current_b = included_map peer_b in
    map (compare_path baseline current_a current_b) (compared_paths baseline current_a current_b)
