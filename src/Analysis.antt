-- ===== src/Analysis.antt =====
-- How an analysis comes about and when it still holds (analysis.rs): the exclusions' wildcards, the
-- walk over a peer's files, and the confirmation of a reviewed plan.
pub mod Wildcard
pub mod Exclusion
pub mod Walk
pub mod Fresh
pub mod Confirm
pub mod Transfer
use sync_plus.Base.{List, Text}
use sync_plus.Path.{FilePath}
use sync_plus.Process.{ProcessSpecError}
use sync_plus.Plan.Check.{PlanError}

pub data AnalysisError : Type 0 where
  process_specification : ProcessSpecError → AnalysisError
  unsupported_remote_peer : Text → AnalysisError
  root_unavailable root_not_directory : Text → FilePath → AnalysisError
  read_directory read_metadata read_file_contents : Text → FilePath → AnalysisError
  plan_error : PlanError → AnalysisError
  profile_changed : AnalysisError
  stale_analysis : List FilePath → AnalysisError
