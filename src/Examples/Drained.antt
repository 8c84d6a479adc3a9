-- ===== src/Examples/Drained.antt =====
-- A Safe Delete run that copied and removed one file.
use sync_plus.Base.{◌≡◌, refl, [], ◌∷◌, nat_eq, text_eq, option_eq, bool_eq}
use sync_plus.Path.{path_eq}
use sync_plus.Model.{outcome_eq, type_eq, action_kind_eq}
use sync_plus.Inventory.{snapshot_item, unix_nanos}
use sync_plus.MirrorEquality.{equal, equal_parts}
use sync_plus.Reconciliation.{FreshAnalysis, reconcile, removal_evidence_matches}
use sync_plus.Reconciliation.Drained.{IsDrained, reconcile-IsDrained}
use sync_plus.Finding.{drained, journal_reason}
use sync_plus.Base.Tree.{set_extend}
use sync_plus.Examples.Data.{
  report, file_at, frozen_at, inventory_of, frozen_of, safe_options, removal_entry,
}

abbrev moved : FreshAnalysis
moved = record {
  source_inventory = inventory_of [];
  destination_inventory = inventory_of (file_at report ∷ []);
}

run :
    (reconcile safe_options
      (frozen_of (frozen_at report ∷ []))
      moved
      (removal_entry ∷ [])).source_drain_status
    ≡ drained
unfolding reconcile removal_evidence_matches equal equal_parts snapshot_item unix_nanos
    journal_reason set_extend path_eq nat_eq text_eq option_eq outcome_eq type_eq action_kind_eq
    bool_eq
run = refl

reconcile-IsDrained_example :
    IsDrained safe_options (frozen_of (frozen_at report ∷ [])) moved (removal_entry ∷ [])
reconcile-IsDrained_example =
    reconcile-IsDrained safe_options (frozen_of (frozen_at report ∷ [])) moved (removal_entry ∷ [])
      run
