-- ===== src/Storage/Encoding.antt =====
-- The row of a profile (storage.rs): its columns, `ProfileValues::from_profile` and
-- `RawProfile::into_profile`. SQLite gives back the values that it was given, so one record stands
-- for the values and for the raw row; the exclusions are rows of another table.
pub mod Restored
use sync_plus.Base.{
  ℕ, ◌^◌, ◌*◌, ◌/◌, Bool, true, false, ◌||◌, not, Option, none, some, List, [], ◌∷◌, ◌++◌, Text,
  if◌then◌else◌, ◌==◌, ltb, is_some, Result, ok, err, panicked, ◌>>=◌, ◌>>◌, require, nat_eq,
  text_eq,
}
use mathlib.Core.Option
use sync_plus.Base.Int.{ℤ, pos, negsuc, int_eq}
use sync_plus.Base.Strings.{codes}
use sync_plus.Model.{
  SyncMode, one_way, mirror, PeerSide, peer_a, peer_b, DeletionMethod, trash, permanent_removal,
  PartialTransferPolicy, cleanup, keep_partial_for_resume, MetadataRequirements, SyncOptions,
}
use sync_plus.Profile.{
  SshAuthentication, key, agent, interactive_password, saved_password, SshPeer, PeerEndpoint,
  local_root, ssh_endpoint, Peer, SyncProfile, new_secret_reference, new_ssh_peer,
  SavedSecretReference,
}
use sync_plus.Schedule.{ok_or}
use sync_plus.Storage.Checks.{StorageError, corrupt_evidence, validate_profile, map_error}
use sync_plus.Storage.Columns.{
  corrupt_profile, encode_profile_bool, decode_profile_bool, encode_sync_mode, decode_sync_mode,
  encode_source, decode_source, encode_deletion_method, decode_deletion_method,
  encode_partial_transfer_policy, decode_partial_transfer_policy, encode_authentication,
  strip_prefix, decode_reference, decode_authentication, unsigned, transpose, i64_or_max,
}

pub record RawPeer : Type 0 where
  pub name : Text
  pub kind : Text
  pub root : Text
  pub server : Option Text
  pub username : Option Text
  pub port : Option ℤ
  pub identity : Option Text
  pub authentication : Option Text

pub record RawProfile : Type 0 where
  pub name : Text
  pub mode : Text
  pub source : Text
  pub peer_a : RawPeer
  pub peer_b : RawPeer
  pub safe_delete : ℤ
  pub destination_cleanup : ℤ
  pub deletion_method : Option Text
  pub metadata_file_type : ℤ
  pub metadata_executable_permissions : ℤ
  pub metadata_symlink_targets : ℤ
  pub metadata_timestamps : ℤ
  pub metadata_ownership : ℤ
  pub metadata_access_control_lists : ℤ
  pub metadata_extended_attributes : ℤ
  pub partial_transfer_policy : Text
  pub retry_max_attempts : ℤ
  pub retry_initial_delay_millis : ℤ
  pub bandwidth_limit_kib_per_second : Option ℤ

abbrev pub from_endpoint : Text → PeerEndpoint → RawPeer
from_endpoint name (local_root path) = record {
  name = name;
  kind = codes "local";
  root = path;
  server = none;
  username = none;
  port = none;
  identity = none;
  authentication = none;
}
from_endpoint name (ssh_endpoint ssh) = record {
  name = name;
  kind = codes "ssh";
  root = ssh.remote_path;
  server = some ssh.server;
  username = some ssh.username;
  port = some (pos ssh.port);
  identity = ssh.identity;
  authentication = some (encode_authentication ssh.authentication);
}

-- `PersistedPeer::from_peer`.
abbrev pub from_peer : Peer → RawPeer
from_peer peer = from_endpoint peer.name peer.endpoint

-- The delay is kept in whole milliseconds.
unfoldable pub row_of : SyncProfile → RawProfile
row_of profile =
    let o = profile.options in
    let metadata = o.metadata in
    record {
      name = profile.name;
      mode = encode_sync_mode profile.mode;
      source = encode_source profile.source;
      peer_a = from_peer profile.peer_a;
      peer_b = from_peer profile.peer_b;
      safe_delete = encode_profile_bool o.safe_delete;
      destination_cleanup = encode_profile_bool o.destination_cleanup;
      deletion_method = Option.map encode_deletion_method o.deletion_method;
      metadata_file_type = encode_profile_bool metadata.file_type;
      metadata_executable_permissions = encode_profile_bool metadata.executable_permissions;
      metadata_symlink_targets = encode_profile_bool metadata.symlink_targets;
      metadata_timestamps = encode_profile_bool metadata.timestamps;
      metadata_ownership = encode_profile_bool metadata.specialist.ownership;
      metadata_access_control_lists = encode_profile_bool metadata.specialist.access_control_lists;
      metadata_extended_attributes = encode_profile_bool metadata.specialist.extended_attributes;
      partial_transfer_policy = encode_partial_transfer_policy o.partial_transfer_policy;
      retry_max_attempts = pos o.retry_policy.max_attempts;
      retry_initial_delay_millis = i64_or_max (o.retry_policy.initial_delay / 1_000_000);
      bandwidth_limit_kib_per_second = Option.map i64_or_max o.bandwidth_limit_kib_per_second;
    }

abbrev pub has_ssh_columns : RawPeer → Bool
has_ssh_columns raw =
    is_some raw.server
    || is_some raw.username
    || is_some raw.port
    || is_some raw.identity
    || is_some raw.authentication

abbrev pub ssh_of : Text → Result StorageError SshPeer → Result StorageError Peer
ssh_of name decoded = decoded >>= λ ssh. ok (record { name = name; endpoint = ssh_endpoint ssh })

abbrev pub decode_local_peer : RawPeer → Result StorageError Peer
decode_local_peer raw =
    if has_ssh_columns raw
    then err corrupt_profile
    else ok (record { name = raw.name; endpoint = local_root raw.root })

module _ (is_utf8 : Text → Bool) where
  -- The SSH peer of a row; the remote path is text.
  abbrev pub decode_ssh_peer : RawPeer → Result StorageError SshPeer
  decode_ssh_peer raw = do
    server ← ok_or corrupt_profile raw.server
    username ← ok_or corrupt_profile raw.username
    port_value ← ok_or corrupt_profile raw.port
    port ← unsigned 16 port_value
    authentication ← decode_authentication raw.authentication
    require (if is_utf8 raw.root then none else some corrupt_profile)
    map_error (λ e. corrupt_profile)
        (new_ssh_peer (record {
          server = server;
          username = username;
          port = port;
          identity = raw.identity;
          authentication = authentication;
          remote_path = raw.root;
        }))

  unfoldable pub decode_peer : RawPeer → Result StorageError Peer
  unfolding decode_authentication unsigned new_ssh_peer
  decode_peer raw =
      if raw.kind == codes "local"
      then decode_local_peer raw
      else if raw.kind == codes "ssh"
      then ssh_of raw.name (decode_ssh_peer raw)
      else err corrupt_profile

abbrev pub decode_metadata : RawProfile → Result StorageError MetadataRequirements
decode_metadata raw = do
  file_type ← decode_profile_bool raw.metadata_file_type
  executable_permissions ← decode_profile_bool raw.metadata_executable_permissions
  symlink_targets ← decode_profile_bool raw.metadata_symlink_targets
  timestamps ← decode_profile_bool raw.metadata_timestamps
  ownership ← decode_profile_bool raw.metadata_ownership
  access_control_lists ← decode_profile_bool raw.metadata_access_control_lists
  extended_attributes ← decode_profile_bool raw.metadata_extended_attributes
  ok record {
    file_type = file_type;
    executable_permissions = executable_permissions;
    symlink_targets = symlink_targets;
    timestamps = timestamps;
    specialist = record {
      ownership = ownership;
      access_control_lists = access_control_lists;
      extended_attributes = extended_attributes;
    };
  }

abbrev pub decode_options : RawProfile → Result StorageError SyncOptions
decode_options raw = do
  safe_delete ← decode_profile_bool raw.safe_delete
  destination_cleanup ← decode_profile_bool raw.destination_cleanup
  deletion_method ← transpose decode_deletion_method raw.deletion_method
  metadata ← decode_metadata raw
  partial_transfer_policy ← decode_partial_transfer_policy raw.partial_transfer_policy
  max_attempts ← unsigned 8 raw.retry_max_attempts
  millis ← unsigned 64 raw.retry_initial_delay_millis
  bandwidth_limit ← transpose (unsigned 64) raw.bandwidth_limit_kib_per_second
  ok record {
    safe_delete = safe_delete;
    destination_cleanup = destination_cleanup;
    deletion_method = deletion_method;
    metadata = metadata;
    partial_transfer_policy = partial_transfer_policy;
    retry_policy = record { max_attempts = max_attempts; initial_delay = millis * 1_000_000 };
    bandwidth_limit_kib_per_second = bandwidth_limit;
  }

-- `RawProfile::into_profile`.
module _ (is_dir is_utf8 : Text → Bool) where
  unfoldable pub into_profile : RawProfile → List Text → Result StorageError SyncProfile
  unfolding decode_peer decode_sync_mode decode_source decode_deletion_method
      decode_partial_transfer_policy decode_profile_bool validate_profile unsigned
  into_profile raw exclusions = do
    a ← decode_peer is_utf8 raw.peer_a
    b ← decode_peer is_utf8 raw.peer_b
    mode ← decode_sync_mode raw.mode
    source ← decode_source raw.source
    options ← decode_options raw
    let profile : SyncProfile = record {
      name = raw.name;
      peer_a = a;
      peer_b = b;
      mode = mode;
      source = source;
      options = options;
      exclusions = exclusions;
    }
    validate_profile is_dir profile
    ok profile
