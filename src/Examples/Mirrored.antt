-- ===== src/Examples/Mirrored.antt =====
-- A Mirror run with a resolved conflict, and a reviewed deletion.
use sync_plus.Base.{
  ◌≡◌, ◌≢◌, ◌↔◌, refl, true, false, List, [], ◌∷◌, some, inl, arith, ok, panicked, nat_eq, text_eq,
  option_eq, bool_eq,
}
use sync_plus.Base.Tree.{set_extend, set_insert, map_insert, map_get}
use sync_plus.Base.Order.{sort_by, text_ord, nat_ord}
use sync_plus.Base.Keyed.{collect_by}
use sync_plus.Path.{path_eq, path_ord, component_ord}
use sync_plus.Model.{default_metadata, outcome_eq, type_eq, peer_a, peer_b}
use sync_plus.Inventory.{
  InventorySnapshotItem, SourceInventorySnapshot, snapshot_item, unix_nanos, inventory_item,
}
use sync_plus.MirrorEquality.{equal, equal_parts}
use sync_plus.Finding.{requires_review, journal_reason}
use sync_plus.Conflict.{keep_peer_a, resolution_eq, same_path_key}
use sync_plus.Resolution.{ConflictResolutionAction, action_from}
use sync_plus.Baseline.{SyncBaseline, from_snapshot}
use sync_plus.MirrorDeletion.{
  MirrorDeletionDecision, delete_counterpart, MirrorDeletionAction, MirrorDeletionCandidate,
  deletion_candidates, resolve, confirm,
}
use sync_plus.MirrorDeletion.Candidates.{IsJustified, deletion_candidates-IsJustified}
use sync_plus.MirrorDeletion.Resolve.{IsComplete, resolve_iff}
use sync_plus.MirrorDeletion.Authorized.{IsAuthorized, deletion_actions-IsAuthorized}
use sync_plus.Reconciliation.{FreshAnalysis}
use sync_plus.Reconciliation.Mirror.{reconcile_mirror}
use sync_plus.Reconciliation.Mirror.Invariant.{SameNow, KeepsExisting, reconcile_mirror-SameNow}
use sync_plus.Examples.Data.{report, file_at, frozen_at, inventory_of, frozen_of}

-- Peer B had other content; Peer A was kept, and now both hold its file.
abbrev other_report : InventorySnapshotItem
other_report = record (frozen_at report) { content_fingerprint = some (8 ∷ []) }

abbrev before_a : SourceInventorySnapshot
before_a = frozen_of (frozen_at report ∷ [])

abbrev before_b : SourceInventorySnapshot
before_b = frozen_of (other_report ∷ [])

abbrev both_now : FreshAnalysis
both_now = record {
  source_inventory = inventory_of (file_at report ∷ []);
  destination_inventory = inventory_of (file_at report ∷ []);
}

abbrev kept : List ConflictResolutionAction
kept = action_from (record { entry_key = same_path_key report; resolution = keep_peer_a }) ∷ []

kept-KeepsExisting : KeepsExisting default_metadata before_a before_b both_now [] kept []
kept-KeepsExisting path action h = ground arith

settled :
    requires_review (reconcile_mirror default_metadata before_a before_b both_now [] kept [])
    ≡ false
unfolding reconcile_mirror equal equal_parts snapshot_item unix_nanos journal_reason set_extend
    path_eq nat_eq text_eq option_eq outcome_eq type_eq bool_eq resolution_eq set_insert path_ord
    component_ord text_ord nat_ord
settled = refl

reconcile_mirror-SameNow_example :
    SameNow default_metadata
      (inventory_item both_now.source_inventory report)
      (inventory_item both_now.destination_inventory report)
reconcile_mirror-SameNow_example =
    reconcile_mirror-SameNow default_metadata before_a before_b both_now [] kept []
      kept-KeepsExisting settled report

-- The file is gone from Peer A.
abbrev agreed : SyncBaseline
agreed = record {
  profile_name = [];
  peer_a_name = [];
  peer_a_root = record { components = [] };
  peer_b_name = [];
  peer_b_root = record { components = [] };
  metadata = default_metadata;
  items =
      record {
        relative_path = report;
        peer_a = some (from_snapshot (frozen_at report));
        peer_b = some (from_snapshot (frozen_at report));
      }
      ∷ [];
}

abbrev gone_a : SourceInventorySnapshot
gone_a = frozen_of []

abbrev still_b : SourceInventorySnapshot
still_b = frozen_of (frozen_at report ∷ [])

abbrev gone_report : MirrorDeletionCandidate
gone_report = record {
  relative_path = report;
  missing_peer = peer_a;
  affected_peer = peer_b;
  evidence = record {
    baseline_missing_state = from_snapshot (frozen_at report);
    baseline_remaining_state = from_snapshot (frozen_at report);
    current_remaining_state = from_snapshot (frozen_at report);
  };
}

candidates-found : deletion_candidates agreed gone_a still_b ≡ gone_report ∷ []
unfolding deletion_candidates equal_parts map_get path_eq nat_eq text_eq option_eq outcome_eq
    type_eq path_ord component_ord collect_by map_insert
candidates-found = refl

abbrev delete_it : List MirrorDeletionDecision
delete_it = record { relative_path = report; choice = delete_counterpart } ∷ []

abbrev deletion : MirrorDeletionAction
deletion = record { candidate = gone_report; choice = delete_counterpart }

resolved : resolve (gone_report ∷ []) delete_it ≡ ok (deletion ∷ [])
unfolding resolve set_extend path_eq nat_eq text_eq sort_by set_insert
resolved = refl

confirmed-plan : confirm (deletion ∷ []) true ≡ ok (deletion ∷ [])
unfolding confirm
confirmed-plan = refl

resolved-candidates :
    resolve (deletion_candidates agreed gone_a still_b) delete_it ≡ ok (deletion ∷ [])
resolved-candidates = rw candidates-found resolved

deletion_actions-IsAuthorized_example : IsAuthorized agreed gone_a still_b delete_it true deletion
deletion_actions-IsAuthorized_example =
    deletion_actions-IsAuthorized agreed gone_a still_b delete_it (deletion ∷ []) (deletion ∷ [])
      true deletion tt (refl, tt) resolved-candidates confirmed-plan (inl refl)

deletion_candidates-IsJustified_example : IsJustified agreed gone_a still_b gone_report
deletion_candidates-IsJustified_example =
    deletion_candidates-IsJustified agreed gone_a still_b tt (refl, tt) gone_report
      (rw candidates-found (inl refl))

resolve_iff_example :
    (((plan : List MirrorDeletionAction) × (resolve (gone_report ∷ []) delete_it ≡ ok plan))
      ↔ IsComplete (gone_report ∷ []) delete_it)
    × (resolve (gone_report ∷ []) delete_it ≢ panicked)
resolve_iff_example = resolve_iff (gone_report ∷ []) delete_it
