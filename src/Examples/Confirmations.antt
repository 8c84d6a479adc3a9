-- ===== src/Examples/Confirmations.antt =====
-- A plan confirmed against the same files, and the transfer plan of a resolution.
use sync_plus.Base.{
  ◌≡◌, ◌↔◌, refl, Bool, true, false, ◌||◌, Option, none, some, List, [], ◌∷◌, Text, Elem, inl, inr,
  All, any, is_empty, Result, ok, err, panicked, IsOk, ◌==◌, text_eq,
}
use sync_plus.Base.Strings.{codes}
use sync_plus.Path.{FilePath, normal}
use sync_plus.Model.{peer_a, mirror, regular_file, excluded}
use sync_plus.Profile.{SyncProfile, local_root}
use sync_plus.Analysis.{AnalysisError}
use sync_plus.Analysis.Walk.{dir, Listing, no_more}
use sync_plus.Analysis.Walk.Unique.{has_unique_names}
use sync_plus.Analysis.Fresh.{FreshAnalysis, equal_profiles, Root, analyze}
use sync_plus.Analysis.Confirm.{ConfirmedPlan, confirm_analysis}
use sync_plus.Analysis.Confirm.Current.{IsUnchanged, confirm_analysis-IsUnchanged}
use sync_plus.Plan.Check.{OneWayPlan}
use sync_plus.Conflict.{ConflictEntryKey, same_path, keep_peer_a, defer}
use sync_plus.Resolution.{ConflictResolutionAction, action_from}
use sync_plus.Analysis.Transfer.{resolution_transfer_plan}
use sync_plus.Analysis.Transfer.Steps.{CanCopy}
use sync_plus.Analysis.Transfer.Copies.{resolution_transfer_plan_iff}
use sync_plus.Examples.Data.{report, file_at, inventory_of}
use sync_plus.Examples.Tables.{copying}
use sync_plus.Examples.Analyses.{notes_and_build, patterns, stat, unwrap, unwrap_ok}

-- The profile of two local folders.
abbrev local_copy : SyncProfile
local_copy = record copying {
  peer_b = record { name = codes "b"; endpoint = local_root (codes "/b") };
  exclusions = patterns;
}

abbrev no_folder : Text → Bool
no_folder path = false

-- Only the first peer has files.
abbrev listing_of : Bool → Listing
listing_of true = notes_and_build
listing_of false = no_more

abbrev first_has_files : Text → Root
first_has_files path = record {
  metadata = some (stat dir);
  listing = listing_of (path == codes "/a");
}

unique_listing : (b : Bool) → has_unique_names (listing_of b) ≡ true
unfolding text_eq native.Mathlib.Decide.ℕ_discrete
unique_listing true = refl
unique_listing false = refl

analyzed : IsOk (analyze no_folder first_has_files local_copy)
unfolding analyze sync_plus.Model.mode_eq sync_plus.Base.nat_eq sync_plus.Model.type_eq
    sync_plus.Base.Order.text_ord sync_plus.Base.Order.nat_ord
    sync_plus.Analysis.Exclusion.is_syncplus_internal_artifact sync_plus.Path.path_ord
    sync_plus.Path.component_ord sync_plus.Model.outcome_eq mathlib.Core.Option.or_else
    sync_plus.Analysis.Exclusion.matches_exclusion sync_plus.Base.Tree.map_get
    sync_plus.Base.Keyed.collect_by sync_plus.Base.Tree.map_insert sync_plus.Path.path_eq text_eq
    sync_plus.Plan.Check.summary_eq sync_plus.Base.option_eq sync_plus.Model.side_eq
analyzed = tt

reviewed : FreshAnalysis
reviewed = unwrap (analyze no_folder first_has_files local_copy) analyzed

is_reviewed : analyze no_folder first_has_files local_copy ≡ ok reviewed
unfolding reviewed
is_reviewed = unwrap_ok (analyze no_folder first_has_files local_copy) analyzed

confirms : IsOk (confirm_analysis no_folder first_has_files reviewed local_copy)
unfolding analyze sync_plus.Model.mode_eq sync_plus.Base.nat_eq sync_plus.Model.type_eq
    sync_plus.Base.Order.text_ord sync_plus.Base.Order.nat_ord
    sync_plus.Analysis.Exclusion.is_syncplus_internal_artifact sync_plus.Path.path_ord
    sync_plus.Path.component_ord sync_plus.Model.outcome_eq mathlib.Core.Option.or_else
    sync_plus.Analysis.Exclusion.matches_exclusion sync_plus.Base.Tree.map_get
    sync_plus.Base.Keyed.collect_by sync_plus.Base.Tree.map_insert sync_plus.Path.path_eq text_eq
    sync_plus.Plan.Check.summary_eq sync_plus.Base.option_eq sync_plus.Model.side_eq
    confirm_analysis reviewed sync_plus.Path.Parse.parse_components sync_plus.Model.options_eq
    sync_plus.Base.texts_eq sync_plus.Analysis.Confirm.actions_eq sync_plus.Base.Tree.set_extend
    sync_plus.Revision.revision_map_eq sync_plus.Revision.collect_states unwrap
confirms = tt

kept : ConfirmedPlan
kept = unwrap (confirm_analysis no_folder first_has_files reviewed local_copy) confirms

is_kept : confirm_analysis no_folder first_has_files reviewed local_copy ≡ ok kept
unfolding kept
is_kept = unwrap_ok (confirm_analysis no_folder first_has_files reviewed local_copy) confirms

confirm_analysis-IsUnchanged_example :
    (refreshed : FreshAnalysis) × (analyze no_folder first_has_files local_copy ≡ ok refreshed)
    × (equal_profiles local_copy local_copy ≡ true)
    × IsUnchanged reviewed refreshed
    × (reviewed.plan.actions ≡ refreshed.plan.actions)
    × (kept.plan ≡ reviewed.plan)
unfolding sync_plus.Base.text_eq native.Mathlib.Decide.ℕ_discrete
confirm_analysis-IsUnchanged_example =
    confirm_analysis-IsUnchanged no_folder no_folder first_has_files first_has_files local_copy
      local_copy reviewed kept (λ path. unique_listing (path == codes "/a"))
      (λ path. unique_listing (path == codes "/a")) is_reviewed is_kept

-- The resolution that keeps the first peer's file, and one that defers.
abbrev row_of_report : ConflictEntryKey
row_of_report = record {
  kind = same_path;
  relative_path = report;
  related_path = none;
  destination_path = none;
}

abbrev decided_actions : List ConflictResolutionAction
decided_actions =
    action_from (record { entry_key = row_of_report; resolution = keep_peer_a })
    ∷ action_from (record { entry_key = row_of_report; resolution = defer })
    ∷ []

abbrev mirrored : FreshAnalysis
mirrored = record reviewed {
  specification = record reviewed.specification { mode = mirror };
  source_inventory = inventory_of (file_at report ∷ []);
  destination_inventory = inventory_of [];
}

resolution_transfer_plan_iff_example :
    ((plan : OneWayPlan) × (resolution_transfer_plan mirrored decided_actions ≡ ok plan))
    ↔ All (CanCopy mirrored) decided_actions
resolution_transfer_plan_iff_example = resolution_transfer_plan_iff mirrored decided_actions refl

can_copy : All (CanCopy mirrored) decided_actions
unfolding sync_plus.Path.path_eq native.Mathlib.Decide.ℕ_discrete sync_plus.Model.outcome_eq
can_copy = ((λ e. (peer_a, refl, (file_at report, (refl, refl)))), ((λ e. absurd (cc)), tt))
