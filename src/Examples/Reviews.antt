-- ===== src/Examples/Reviews.antt =====
-- A file that differs between the peers, a file that each peer has twice, and decisions on them.
use sync_plus.Base.{
  ℕ, Bool, true, false, ◌≡◌, ◌↔◌, refl, Option, none, some, List, [], ◌∷◌, map, Text, ok, arith,
  nat_eq, text_eq, option_eq, contains, ◌&&◌, ◌||◌,
}
use sync_plus.Base.Order.{sort_by}
use sync_plus.Path.{FilePath, path_eq, path_ord}
use sync_plus.Model.{default_metadata, regular_file, included}
use sync_plus.Inventory.{InventorySnapshotItem, SourceInventorySnapshot, snapshot_lookup}
use sync_plus.Examples.Data.{report, notes, frozen_at, frozen_of}
use sync_plus.Conflict.{
  ConflictEntryKey, same_path_key, keep_peer_a, defer, possible_duplicate_or_rename,
}
use sync_plus.Conflict.Key.{key_eq}
use sync_plus.Resolution.{ConflictDecision, action_from}
use sync_plus.Review.{ConflictEntry, row_key, included_items_paths, from_inventories_with_limit}
use sync_plus.Review.Rows.{differs, from_inventories-same_path}
use sync_plus.Review.Resolve.{resolve_conflicts, resolution_path}
use sync_plus.Review.Resolve.Complete.{IsComplete, resolve_conflicts_iff}

abbrev no_bytes : FilePath → FilePath → ℕ → Option (List ℕ)
no_bytes root path limit = some []

abbrev any_text : List ℕ → Bool
any_text bytes = true

abbrev longer : InventorySnapshotItem
longer = record (frozen_at report) { size = 4; content_fingerprint = some (8 ∷ []) }

abbrev on_a : SourceInventorySnapshot
on_a = frozen_of (frozen_at report ∷ [])

abbrev on_b : SourceInventorySnapshot
on_b = frozen_of (longer ∷ [])

abbrev rows : List ConflictEntry
rows = from_inventories_with_limit no_bytes any_text on_a on_b default_metadata 10

from_inventories-same_path_example : contains (map row_key rows) (same_path_key report) ≡ (
    (contains (included_items_paths on_a) report || contains (included_items_paths on_b) report)
    && differs default_metadata (snapshot_lookup on_a report) (snapshot_lookup on_b report))
from_inventories-same_path_example =
    from_inventories-same_path no_bytes any_text on_a on_b default_metadata 10 report

one_row : map row_key rows ≡ same_path_key report ∷ []
unfolding from_inventories_with_limit sync_plus.Model.outcome_eq sync_plus.Base.Tree.set_insert
    path_ord sync_plus.Path.component_ord sync_plus.Base.Order.text_ord sync_plus.Base.Order.nat_ord
    path_eq native.Mathlib.Decide.ℕ_discrete sync_plus.Model.type_eq nat_eq text_eq
one_row = refl

-- Two equal files on both peers: three of the rows have the same key.
abbrev copies : SourceInventorySnapshot
copies = frozen_of (frozen_at notes ∷ frozen_at report ∷ [])

abbrev pair_key : FilePath → FilePath → ConflictEntryKey
pair_key path other = record {
  kind = possible_duplicate_or_rename;
  relative_path = path;
  related_path = some other;
  destination_path = none;
}

repeated_rows :
    map row_key (from_inventories_with_limit no_bytes any_text copies copies default_metadata 10)
    ≡ pair_key notes report
      ∷ pair_key notes report
      ∷ pair_key report notes
      ∷ pair_key notes report
      ∷ []
unfolding from_inventories_with_limit sync_plus.Model.outcome_eq sync_plus.Base.Tree.set_insert
    path_ord sync_plus.Path.component_ord sync_plus.Base.Order.text_ord sync_plus.Base.Order.nat_ord
    path_eq native.Mathlib.Decide.ℕ_discrete sync_plus.Model.type_eq nat_eq option_eq text_eq
repeated_rows = refl

abbrev decision : ConflictDecision
decision = record { entry_key = same_path_key report; resolution = keep_peer_a }

resolve_conflicts_iff_example :
    (resolve_conflicts rows (decision ∷ []) ≡ ok (action_from decision ∷ [])) ↔ (
      IsComplete rows (decision ∷ [])
      × (action_from decision ∷ [] ≡ sort_by resolution_path (map action_from (decision ∷ []))))
resolve_conflicts_iff_example =
    resolve_conflicts_iff rows (decision ∷ []) (action_from decision ∷ [])

resolved : resolve_conflicts rows (decision ∷ []) ≡ ok (action_from decision ∷ [])
unfolding resolve_conflicts from_inventories_with_limit sync_plus.Model.outcome_eq path_ord
    sync_plus.Path.component_ord sync_plus.Base.Order.text_ord sync_plus.Base.Order.nat_ord path_eq
    native.Mathlib.Decide.ℕ_discrete sync_plus.Model.type_eq nat_eq key_eq
    sync_plus.Conflict.resolution_eq text_eq
resolved = refl
