-- ===== src/Baseline/Merge.antt =====
-- `SyncBaseline::merge_settled`: newly settled paths replace or join those of the same peer pair.
use mathlib.Core.Option.{or_else}
use sync_plus.Base.{◌≡◌, Bool, ◌||◌, [], if◌then◌else◌, ◌/=◌, text_eq, Bool-cases, inl, inr}
use sync_plus.Base.Keyed.{IsDistinct, collect_by, values, find_key-merged}
use sync_plus.Path.{FilePath, path_eq, path_ord}
use sync_plus.Baseline.{SyncBaselineItem, SyncBaseline, baseline_item}

abbrev pub baseline_path : SyncBaselineItem → FilePath
baseline_path item = item.relative_path

-- The identity that two baselines must share to be merged.
abbrev pub is_other_pair : SyncBaseline → SyncBaseline → Bool
is_other_pair old updates =
    old.profile_name /= updates.profile_name
    || old.peer_a_name /= updates.peer_a_name
    || old.peer_a_root /= updates.peer_a_root
    || old.peer_b_name /= updates.peer_b_name
    || old.peer_b_root /= updates.peer_b_root

unfoldable pub merge_settled : SyncBaseline → SyncBaseline → SyncBaseline
merge_settled old updates = if is_other_pair old updates then updates else record old {
  metadata = updates.metadata;
  items =
      values baseline_path
        (collect_by baseline_path updates.items (collect_by baseline_path old.items []));
}

-- Merging into the baseline of the same peer pair keeps, at each path, the update's entry if it
-- has one and the old entry if not; an update of another pair replaces the baseline.
pub baseline_item-merge_settled :
    (old updates : SyncBaseline) (path : FilePath)
    → IsDistinct baseline_path old.items
    → IsDistinct baseline_path updates.items
    → baseline_item (merge_settled old updates) path ≡ (
        if is_other_pair old updates
        then baseline_item updates path
        else or_else (baseline_item updates path) (baseline_item old path))
unfolding merge_settled
baseline_item-merge_settled old updates path uo uu = elim (Bool-cases (is_other_pair old updates)) [
  | inl other ↦ rw other
  | inr same ↦ rw same (find_key-merged baseline_path path old.items updates.items uo uu)
]
