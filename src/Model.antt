-- ===== src/Model.antt =====
-- The vocabulary of crates/syncplus-core/src/model.rs and analysis.rs: sides, requirements, options.
use native.Mathlib.Decide.{ℕ_discrete}
use sync_plus.Base.{Bool, true, false, ◌||◌, Option, Eq, ℕ}

pub data ItemType : Type 0 where
  regular_file directory symlink unsupported_type : ItemType

pub data AnalysisOutcome : Type 0 where
  included excluded unsupported : AnalysisOutcome

pub data PeerSide : Type 0 where
  peer_a peer_b : PeerSide

abbrev pub opposite : PeerSide → PeerSide
opposite peer_a = peer_b
opposite peer_b = peer_a

pub data SyncMode : Type 0 where
  one_way mirror : SyncMode

pub data DeletionMethod : Type 0 where
  trash permanent_removal : DeletionMethod

pub data PartialTransferPolicy : Type 0 where
  cleanup keep_partial_for_resume : PartialTransferPolicy

-- The delay in nanoseconds.
pub record RetryPolicy : Type 0 where
  pub max_attempts : ℕ
  pub initial_delay : ℕ

pub data PlanActionKind : Type 0 where
  copy_to_destination overwrite_destination : PlanActionKind
  remove_destination remove_source_after_verification : PlanActionKind

pub record SpecialistMetadataRequirements : Type 0 where
  pub ownership : Bool
  pub access_control_lists : Bool
  pub extended_attributes : Bool

abbrev pub any_specialist : SpecialistMetadataRequirements → Bool
any_specialist s = s.ownership || s.access_control_lists || s.extended_attributes

pub record MetadataRequirements : Type 0 where
  pub file_type : Bool
  pub executable_permissions : Bool
  pub symlink_targets : Bool
  pub timestamps : Bool
  pub specialist : SpecialistMetadataRequirements

pub record SyncOptions : Type 0 where
  pub safe_delete : Bool
  pub destination_cleanup : Bool
  pub deletion_method : Option DeletionMethod
  pub metadata : MetadataRequirements
  pub partial_transfer_policy : PartialTransferPolicy
  pub retry_policy : RetryPolicy
  pub bandwidth_limit_kib_per_second : Option ℕ

-- `MetadataRequirements::default`, the essential contract.
abbrev pub default_metadata : MetadataRequirements
default_metadata = record {
  file_type = true;
  executable_permissions = true;
  symlink_targets = true;
  timestamps = false;
  specialist = record {
    ownership = false;
    access_control_lists = false;
    extended_attributes = false;
  };
}

pub ItemType-discrete : Discrete ItemType
ItemType-discrete = hlevel

pub AnalysisOutcome-discrete : Discrete AnalysisOutcome
AnalysisOutcome-discrete = hlevel

pub PeerSide-discrete : Discrete PeerSide
PeerSide-discrete = hlevel

pub PlanActionKind-discrete : Discrete PlanActionKind
PlanActionKind-discrete = hlevel

instance unfoldable pub type_eq : Eq ItemType
unfolding ItemType-discrete
type_eq = record { dec = ItemType-discrete }

instance unfoldable pub outcome_eq : Eq AnalysisOutcome
unfolding AnalysisOutcome-discrete
outcome_eq = record { dec = AnalysisOutcome-discrete }

instance unfoldable pub side_eq : Eq PeerSide
unfolding PeerSide-discrete
side_eq = record { dec = PeerSide-discrete }

instance unfoldable pub action_kind_eq : Eq PlanActionKind
unfolding PlanActionKind-discrete
action_kind_eq = record { dec = PlanActionKind-discrete }

SyncMode-discrete : Discrete SyncMode
SyncMode-discrete = hlevel

instance unfoldable pub mode_eq : Eq SyncMode
unfolding SyncMode-discrete
mode_eq = record { dec = SyncMode-discrete }

DeletionMethod-discrete : Discrete DeletionMethod
DeletionMethod-discrete = hlevel

instance unfoldable pub method_eq : Eq DeletionMethod
unfolding DeletionMethod-discrete
method_eq = record { dec = DeletionMethod-discrete }

PartialTransferPolicy-discrete : Discrete PartialTransferPolicy
PartialTransferPolicy-discrete = hlevel

instance unfoldable pub policy_eq : Eq PartialTransferPolicy
unfolding PartialTransferPolicy-discrete
policy_eq = record { dec = PartialTransferPolicy-discrete }

RetryPolicy-discrete : Discrete RetryPolicy
RetryPolicy-discrete = hlevel ℕ_discrete

instance unfoldable pub retry_eq : Eq RetryPolicy
unfolding RetryPolicy-discrete
retry_eq = record { dec = RetryPolicy-discrete }

SyncOptions-discrete : Discrete SyncOptions
unfolding DeletionMethod-discrete PartialTransferPolicy-discrete RetryPolicy-discrete
SyncOptions-discrete = hlevel ℕ_discrete

instance unfoldable pub options_eq : Eq SyncOptions
unfolding SyncOptions-discrete
options_eq = record { dec = SyncOptions-discrete }
