-- ===== src/Resolution.antt =====
-- Decisions on conflicts (resolution.rs) and the whole-file operation of each.
use sync_plus.Base.{Bool, true, false, Option, none, some}
use sync_plus.Path.{FilePath}
use sync_plus.Model.{PeerSide, peer_a, peer_b}
use sync_plus.Conflict.{
  ConflictEntryKey, ConflictResolution, keep_peer_a, keep_peer_b, preserve_both,
  rename_preserve_for_review, defer,
}

pub record ConflictDecision : Type 0 where
  pub entry_key : ConflictEntryKey
  pub resolution : ConflictResolution

pub data ResolutionOperation : Type 0 where
  copy_whole_file keep_both rename_for_review deferred : ResolutionOperation

pub record ConflictResolutionAction : Type 0 where
  pub entry_key : ConflictEntryKey
  pub relative_path : FilePath
  pub resolution : ConflictResolution
  pub operation : ResolutionOperation
  pub source_side : Option PeerSide
  pub target_side : Option PeerSide

abbrev pub operation_of :
    ConflictResolution → ResolutionOperation × Option PeerSide × Option PeerSide
operation_of keep_peer_a = (copy_whole_file, some peer_a, some peer_b)
operation_of keep_peer_b = (copy_whole_file, some peer_b, some peer_a)
operation_of preserve_both = (keep_both, none, none)
operation_of rename_preserve_for_review = (rename_for_review, none, none)
operation_of defer = (deferred, none, none)

-- `ConflictResolutionAction::from_decision`.
abbrev pub action_from : ConflictDecision → ConflictResolutionAction
action_from decision =
    let (operation, source_side, target_side) = operation_of decision.resolution in
    record {
      entry_key = decision.entry_key;
      relative_path = decision.entry_key.relative_path;
      resolution = decision.resolution;
      operation = operation;
      source_side = source_side;
      target_side = target_side;
    }

abbrev pub mutates_files : ConflictResolutionAction → Bool
mutates_files action = elim action.operation [ copy_whole_file ↦ true | _ ↦ false ]
