-- ===== src/Examples/Baselines.antt =====
-- Baselines recorded, merged and compared.
use sync_plus.Base.{
  is_some, ◌||◌, if◌then◌else◌, ◌≡◌, ◌↔◌, refl, [], ◌∷◌, none, some, nat_eq, text_eq,
}
use sync_plus.Path.{path_eq, path_ord}
use sync_plus.Model.{default_metadata}
use sync_plus.Inventory.{InventorySnapshotItem, SourceInventorySnapshot}
use sync_plus.Finding.{CompletionReconciliation, not_applicable}
use sync_plus.Baseline.{
  SyncBaseline, SyncBaselineItem, from_snapshot, from_inventories, from_reconciled_inventories,
  baseline_item,
}
use sync_plus.Baseline.Recorded.{included_at}
use sync_plus.Baseline.Settled.{MaySettle, baseline_item-from_reconciled_inventories}
use sync_plus.Baseline.Compare.Status.{transition}
use sync_plus.Baseline.Compare.Live.{compared_at, compare-from_inventories}
use sync_plus.Examples.Data.{report, notes, frozen_at, frozen_of}

abbrev both : SourceInventorySnapshot
both = frozen_of (frozen_at report ∷ [])

abbrev later : SourceInventorySnapshot
later = frozen_of (frozen_at notes ∷ [])

abbrev earlier : SyncBaseline
earlier = record {
  profile_name = [];
  peer_a_name = [];
  peer_a_root = record { components = [] };
  peer_b_name = [];
  peer_b_root = record { components = [] };
  metadata = default_metadata;
  items =
      record {
        relative_path = report;
        peer_a = some (from_snapshot (frozen_at report));
        peer_b = none;
      }
      ∷ [];
}

abbrev clean : CompletionReconciliation
clean = record { source_drain_status = not_applicable; findings = [] }

abbrev settled_report : SyncBaselineItem
settled_report = record {
  relative_path = report;
  peer_a = some (from_snapshot (frozen_at report));
  peer_b = some (from_snapshot (frozen_at report));
}

baseline_item-from_reconciled_inventories_example :
    (baseline_item (from_reconciled_inventories [] both both [] clean default_metadata) report
      ≡ some settled_report)
    ↔ ((left : InventorySnapshotItem) × (right : InventorySnapshotItem) × MaySettle both both []
          clean default_metadata report left right
        × (settled_report ≡ record {
          relative_path = report;
          peer_a = some (from_snapshot left);
          peer_b = some (from_snapshot right);
        }))
baseline_item-from_reconciled_inventories_example =
    baseline_item-from_reconciled_inventories both both [] clean default_metadata [] report
      settled_report

compare-from_inventories_example :
    compared_at (from_inventories [] both both default_metadata) later both report ≡ (
      if is_some (included_at both report)
        || is_some (included_at both report)
        || is_some (included_at later report)
        || is_some (included_at both report)
      then some (record {
        relative_path = report;
        peer_a = transition default_metadata (included_at both report) (included_at later report);
        peer_b = transition default_metadata (included_at both report) (included_at both report);
      })
      else none)
compare-from_inventories_example =
    compare-from_inventories [] default_metadata both both later both report (refl, tt) (refl, tt)
      (refl, tt) (refl, tt)
