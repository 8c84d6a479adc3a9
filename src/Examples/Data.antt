-- ===== src/Examples/Data.antt =====
-- Test data: two peers with one file, and its copies, records and journal.
use sync_plus.Base.{true, false, none, some, List, [], ◌∷◌, Text}
use sync_plus.Path.{FilePath, normal}
use sync_plus.Model.{
  SyncOptions, default_metadata, cleanup, permanent_removal, regular_file, included, peer_a,
  remove_source_after_verification,
}
use sync_plus.Base.Int.{pos}
use sync_plus.Inventory.{
  InventoryItem, SourceInventory, InventorySnapshotItem, SourceInventorySnapshot,
}
use sync_plus.Journal.{ActionJournalEntry, RecoveryEvidence, completed}

abbrev pub path_of_name : Text → FilePath
path_of_name name = record { components = normal name ∷ [] }

abbrev pub report : FilePath
report = path_of_name (b'r' ∷ [])

abbrev pub notes : FilePath
notes = path_of_name (b'n' ∷ [])

abbrev pub file_at : FilePath → InventoryItem
file_at path = record {
  relative_path = path;
  item_type = regular_file;
  metadata = record {
    size = 3;
    modified_at = some (pos 5);
    readonly = false;
    permissions = none;
    symlink_target = none;
  };
  outcome = included;
  content_fingerprint = some (7 ∷ []);
}

abbrev pub frozen_at : FilePath → InventorySnapshotItem
frozen_at path = record {
  relative_path = path;
  item_type = regular_file;
  outcome = included;
  size = 3;
  modified_at_unix_nanos = some (pos 5);
  readonly = false;
  permissions = none;
  symlink_target = none;
  content_fingerprint = some (7 ∷ []);
}

abbrev pub inventory_of : List InventoryItem → SourceInventory
inventory_of items = record {
  peer_name = [];
  root = record { components = [] };
  items = items;
  approved_scope = record { included_paths = []; excluded_paths = [] };
}

abbrev pub frozen_of : List InventorySnapshotItem → SourceInventorySnapshot
frozen_of items = record { peer_name = []; root = record { components = [] }; items = items }

abbrev pub safe_options : SyncOptions
safe_options = record {
  safe_delete = true;
  destination_cleanup = false;
  deletion_method = some permanent_removal;
  metadata = default_metadata;
  partial_transfer_policy = cleanup;
  retry_policy = record { max_attempts = 1; initial_delay = 0 };
  bandwidth_limit_kib_per_second = none;
}

abbrev pub removal_evidence : RecoveryEvidence
removal_evidence = record {
  observed_at_unix_nanos = pos 9;
  recovery_target = none;
  source_present = false;
  destination_present = true;
  recovery_present = false;
  source_size = none;
  destination_size = some 3;
  source_sha256 = none;
  destination_sha256 = some (7 ∷ []);
  recovery_size = none;
  recovery_sha256 = none;
}

abbrev pub removal_entry : ActionJournalEntry
removal_entry = record {
  plan = record {
    action_id = 1;
    relative_path = report;
    operation = remove_source_after_verification;
    affected_side = peer_a;
    planned_bytes = none;
    pre_action = record {
      item_type = regular_file;
      size = 3;
      modified_at_unix_nanos = some (pos 5);
      identity = none;
      sha256 = some (7 ∷ []);
    };
  };
  last_phase = [];
  started = true;
  progress_bytes = [];
  outcome = completed;
  transfer_evidence = none;
  proof_boundary = none;
  removal_result =
      some (record { deletion_method = permanent_removal; evidence = removal_evidence });
  recovery_evidence = none;
  recovery_resolution_evidence = none;
}
