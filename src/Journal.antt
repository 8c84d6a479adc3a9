-- ===== src/Journal.antt =====
-- The action journal of evidence.rs: what one planned action recorded of its transfer, its proof
-- and its removal.
use sync_plus.Base.{ℕ, Bool, true, false, Option, List, Text, Eq}
use sync_plus.Base.Int.{ℤ}
use sync_plus.Path.{FilePath}
use sync_plus.Model.{ItemType, PeerSide, DeletionMethod, PlanActionKind}
use sync_plus.Inventory.{Digest}

pub data ActionReason : Type 0 where
  transfer_failed verification_mismatch source_changed permission_denied : ActionReason
  cancellation_requested deferred_for_review filesystem_uncertain : ActionReason
  interrupted_boundary destination_unavailable : ActionReason

pub ActionReason-discrete : Discrete ActionReason
ActionReason-discrete = hlevel

instance unfoldable pub action_reason_eq : Eq ActionReason
unfolding ActionReason-discrete
action_reason_eq = record { dec = ActionReason-discrete }

pub data ActionOutcome : Type 0 where
  in_progress completed cancelled interrupted deferred : ActionOutcome
  failed unresolved recovery_review : ActionReason → ActionOutcome

abbrev pub is_completed : ActionOutcome → Bool
is_completed completed = true
is_completed _ = false

pub record FileIdentity : Type 0 where
  pub device : ℕ
  pub inode : ℕ

pub record PreActionState : Type 0 where
  pub item_type : ItemType
  pub size : ℕ
  pub modified_at_unix_nanos : Option ℤ
  pub identity : Option FileIdentity
  pub sha256 : Option Digest

pub record PlanRecord : Type 0 where
  pub action_id : ℕ
  pub relative_path : FilePath
  pub operation : PlanActionKind
  pub affected_side : PeerSide
  pub planned_bytes : Option ℕ
  pub pre_action : PreActionState

-- `RecoveryEvidence`, without the provenance record that a restore reads.
pub record RecoveryEvidence : Type 0 where
  pub observed_at_unix_nanos : ℤ
  pub recovery_target : Option FilePath
  pub source_present : Bool
  pub destination_present : Bool
  pub recovery_present : Bool
  pub source_size : Option ℕ
  pub destination_size : Option ℕ
  pub source_sha256 : Option Digest
  pub destination_sha256 : Option Digest
  pub recovery_size : Option ℕ
  pub recovery_sha256 : Option Digest

pub record RemovalResult : Type 0 where
  pub deletion_method : DeletionMethod
  pub evidence : RecoveryEvidence

pub record ActionJournalEntry : Type 0 where
  pub plan : PlanRecord
  pub last_phase : Text
  pub started : Bool
  pub progress_bytes : List ℕ
  pub outcome : ActionOutcome
  pub transfer_evidence : Option RecoveryEvidence
  pub proof_boundary : Option RecoveryEvidence
  pub removal_result : Option RemovalResult
  pub recovery_evidence : Option RecoveryEvidence
  pub recovery_resolution_evidence : Option RecoveryEvidence
