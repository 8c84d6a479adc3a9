-- ===== src/Analysis/Confirm.antt =====
-- The confirmation of a reviewed plan (`FreshAnalysis::confirm` and its variants of analysis.rs): a later analysis
-- must find what the reviewed one found.
pub mod Current
use native.Mathlib.Decide.{ℕ_discrete}
use sync_plus.Base.{
  ℕ, Bool, true, false, not, Option, none, some, List, [], ◌∷◌, ◌++◌, map, Text, is_empty,
  if◌then◌else◌, ◌==◌, ◌/=◌, Eq, Result, ok, err, panicked, require, ◌>>=◌, ◌>>◌,
}
use sync_plus.Base.Order.{sort_by}
use sync_plus.Path.{FilePath, FilePath-discrete, path_eq, path_ord}
use sync_plus.Model.{PeerSide-discrete, PlanActionKind-discrete, DeletionMethod, SyncOptions}
use sync_plus.Profile.{SyncProfile}
use sync_plus.Plan.{PlanAction}
use sync_plus.Plan.Check.{OneWayPlan}
use sync_plus.Revision.{changed_paths}
use sync_plus.Analysis.{AnalysisError, profile_changed, stale_analysis}
use sync_plus.Analysis.Fresh.{FreshAnalysis, equal_profiles, Root, analyze}

pub record ConfirmedPlan : Type 0 where
  pub plan : OneWayPlan
  pub profile : SyncProfile

PlanAction-discrete : Discrete PlanAction
PlanAction-discrete = hlevel ℕ_discrete

Actions-discrete : Discrete (List PlanAction)
unfolding PlanAction-discrete
Actions-discrete = hlevel ℕ_discrete

instance unfoldable pub actions_eq : Eq (List PlanAction)
unfolding Actions-discrete
actions_eq = record { dec = Actions-discrete }

abbrev planned_path : PlanAction → FilePath
planned_path action = action.proposal.relative_path

-- `Vec::dedup`, which looks at neighbours.
abbrev pub dedup_paths : List FilePath → List FilePath
dedup_paths [] = []
dedup_paths (p ∷ []) = p ∷ []
dedup_paths (p ∷ q ∷ paths) =
    let rest = dedup_paths (q ∷ paths) in if p == q then rest else p ∷ rest

abbrev pub sorted_paths : List FilePath → List FilePath
sorted_paths paths = sort_by (λ path. path) paths

abbrev pub paths_with : List FilePath → List PlanAction → List PlanAction → List FilePath
paths_with changed reviewed refreshed =
    changed ++ map planned_path reviewed ++ map planned_path refreshed

-- If the actions differ, all of their paths are named as well.
unfoldable pub stale_with : List FilePath → List PlanAction → List PlanAction → List FilePath
unfolding sort_by
stale_with changed reviewed refreshed =
    if reviewed /= refreshed
    then dedup_paths (sorted_paths (paths_with changed reviewed refreshed))
    else changed

-- The paths that make a reviewed analysis stale.
unfoldable pub stale_paths : FreshAnalysis → FreshAnalysis → List FilePath
unfolding changed_paths stale_with
stale_paths reviewed refreshed =
    stale_with (changed_paths reviewed.revision refreshed.revision) reviewed.plan.actions
      refreshed.plan.actions

abbrev pub stale_error : List FilePath → Option AnalysisError
stale_error [] = none
stale_error (path ∷ paths) = some (stale_analysis (path ∷ paths))

unfoldable pub confirm_refreshed_unchecked :
    FreshAnalysis → SyncProfile → FreshAnalysis → Result AnalysisError ConfirmedPlan
unfolding stale_paths
confirm_refreshed_unchecked reviewed current_profile refreshed = do
  require (stale_error (stale_paths reviewed refreshed))
  ok (record { plan = reviewed.plan; profile = current_profile })

abbrev pub profile_error : SyncProfile → SyncProfile → Option AnalysisError
profile_error reviewed current =
    if equal_profiles reviewed current then none else some profile_changed

unfoldable pub confirm_refreshed :
    FreshAnalysis → SyncProfile → FreshAnalysis → Result AnalysisError ConfirmedPlan
unfolding confirm_refreshed_unchecked equal_profiles
confirm_refreshed reviewed current_profile refreshed = do
  require (profile_error reviewed.profile current_profile)
  confirm_refreshed_unchecked reviewed current_profile refreshed

-- `with_options` of `with_deletion_method`.
abbrev with_method : SyncProfile → DeletionMethod → SyncProfile
with_method profile method = record profile {
  options = record profile.options { deletion_method = some method };
}

-- On the local files at the time of the confirmation.
module _ (is_dir : Text → Bool) (files : Text → Root) where
  unfoldable pub confirm_analysis : FreshAnalysis → SyncProfile → Result AnalysisError ConfirmedPlan
  unfolding analyze confirm_refreshed
  confirm_analysis reviewed current_profile = do
    require (profile_error reviewed.profile current_profile)
    refreshed ← analyze is_dir files current_profile
    confirm_refreshed reviewed current_profile refreshed

  unfoldable pub confirm_with_deletion_method :
      FreshAnalysis → SyncProfile → DeletionMethod → Result AnalysisError ConfirmedPlan
  unfolding analyze confirm_refreshed_unchecked
  confirm_with_deletion_method reviewed current_profile method = do
    let runtime_profile = with_method current_profile method
    require (profile_error (with_method reviewed.profile method) runtime_profile)
    refreshed ← analyze is_dir files runtime_profile
    confirm_refreshed_unchecked reviewed runtime_profile refreshed
