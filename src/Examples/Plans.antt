-- ===== src/Examples/Plans.antt =====
-- Plans for a file that the destination lacks.
use sync_plus.Base.{some, inl, ◌≡◌, refl, [], ◌∷◌, ok, Elem}
use sync_plus.Model.{one_way, peer_a, copy_to_destination, outcome_eq}
use sync_plus.Inventory.{SourceInventory}
use sync_plus.Plan.{Proposal, ProcessSpecification, PlanAction}
use sync_plus.Plan.Check.{build_plan, proposed_plan}
use sync_plus.Plan.Reasons.{IsPlanned}
use sync_plus.Plan.Valid.{IsNumbered, build_plan_ok, build_plan-IsPlanned}
use sync_plus.Plan.Complete.{build_plan-IsComplete}
use sync_plus.Examples.Data.{report, file_at, inventory_of, safe_options}

abbrev move_files : ProcessSpecification
move_files = record { mode = one_way; source = peer_a; options = safe_options }

abbrev with_report : SourceInventory
with_report = inventory_of (file_at report ∷ [])

abbrev without : SourceInventory
without = inventory_of []

build_plan_ok_example :
    build_plan move_files with_report without ≡ ok (proposed_plan move_files with_report without)
build_plan_ok_example = build_plan_ok move_files with_report without (refl, tt) tt

built :
    build_plan move_files with_report without ≡ ok (proposed_plan move_files with_report without)
built = build_plan_ok move_files with_report without (refl, tt) tt

build_plan-IsPlanned_example :
    IsNumbered 1 (proposed_plan move_files with_report without).actions
    × ((a : PlanAction)
        → Elem a (proposed_plan move_files with_report without).actions
        → IsPlanned move_files with_report without a.proposal one_way)
build_plan-IsPlanned_example =
    build_plan-IsPlanned move_files with_report without (refl, tt) tt
      (proposed_plan move_files with_report without) built

abbrev copy_report : Proposal
copy_report = record {
  relative_path = report;
  kind = copy_to_destination;
  source_side = peer_a;
  size = some 3;
}

copy_report-IsPlanned : IsPlanned move_files with_report without copy_report one_way
unfolding outcome_eq
copy_report-IsPlanned =
    (refl, (file_at report, record { held = inl refl; at_path = refl; inside = refl }, refl))

build_plan-IsComplete_example :
    (a : PlanAction) × Elem a (proposed_plan move_files with_report without).actions
    × (a.proposal.kind ≡ copy_to_destination)
    × (a.proposal.relative_path ≡ report)
    × (a.proposal.source_side ≡ peer_a)
build_plan-IsComplete_example =
    build_plan-IsComplete move_files with_report without (refl, tt) tt
      (proposed_plan move_files with_report without) copy_report built copy_report-IsPlanned
