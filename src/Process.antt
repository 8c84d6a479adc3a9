-- ===== src/Process.antt =====
-- The rsync command of crates/syncplus-core/src/process.rs: the validated options of a profile, the
-- typed arguments, and the texts that they are passed as.
pub mod Specification
pub mod Accepted
pub mod Shell
pub mod Invocation
pub mod Exclusions
use sync_plus.Base.{
  ℕ, ◌/◌, Bool, true, false, ◌&&◌, ◌||◌, not, Option, none, some, List, [], ◌∷◌, ◌++◌, map, Text,
  Eq, ◌==◌, if◌then◌else◌, leb, ltb, is_some, is_none, is_empty, Result, ok, err, ◌>>=◌, require,
}
use sync_plus.Base.Strings.{contains_nul, codes}
use sync_plus.Model.{
  SyncMode, one_way, mirror, mode_eq, PeerSide, peer_a, peer_b, SyncOptions, MetadataRequirements,
  PlanActionKind,
}
use sync_plus.Profile.{
  SshPeer, SshAuthentication, Peer, SyncProfile, root, ssh_peer, is_ssh, selected_source,
  selected_destination, effective_destination_root,
}
use sync_plus.Profile.Visible.{max_attempts, max_initial_delay}

pub data RsyncFlag : Type 0 where
  archive itemize_changes protect_args compress destination_cleanup end_of_options : RsyncFlag
  owner group acls xattrs : RsyncFlag

abbrev pub flag_text : RsyncFlag → Text
flag_text archive = codes "--archive"
flag_text itemize_changes = codes "--itemize-changes"
flag_text protect_args = codes "--protect-args"
flag_text compress = codes "--compress"
flag_text destination_cleanup = codes "--delete"
flag_text end_of_options = codes "--"
flag_text owner = codes "--owner"
flag_text group = codes "--group"
flag_text acls = codes "--acls"
flag_text xattrs = codes "--xattrs"

pub record SshTarget : Type 0 where
  pub username : Text
  pub server : Text
  pub remote_path : Text

pub record SshTransport : Type 0 where
  pub port : ℕ
  pub identity : Option Text
  pub authentication : SshAuthentication

pub data ProcessArgument : Type 0 where
  flag : RsyncFlag → ProcessArgument
  bandwidth_limit : ℕ → ProcessArgument
  exclusion_pattern : Text → ProcessArgument
  peer_path : Text → ProcessArgument
  remote_peer_path : SshTarget → ProcessArgument
  ssh_transport : SshTransport → ProcessArgument

-- The reasons of `InvalidOptionCombination` and `InvalidExclusionPattern`.
pub data InvalidReason : Type 0 where
  method_without_removal mirror_with_deletion empty_pattern nul_in_pattern : InvalidReason

pub data ProcessSpecError : Type 0 where
  invalid_option_combination invalid_exclusion_pattern : InvalidReason → ProcessSpecError
  empty_peer_path nul_in_peer_path : Text → ProcessSpecError
  invalid_secret_binding : Text → ProcessSpecError
  unsupported_ssh_topology unsupported_ssh_filesystem_operation : ProcessSpecError
  mirror_requires_reviewed_plan : ProcessSpecError
  action_not_allowed : PlanActionKind → ProcessSpecError
  action_source_mismatch : ProcessSpecError
  invalid_transfer_path : Text → ProcessSpecError
  invalid_retry_policy invalid_retry_delay invalid_bandwidth_limit : ℕ → ProcessSpecError
  advanced_mode_required : Text → ProcessSpecError
  deletion_method_required : ProcessSpecError

-- The fields of `ValidatedSyncOptions` are those of the options.
pub record ValidatedSyncOptions : Type 0 where
  pub options : SyncOptions

abbrev max_bandwidth : ℕ
max_bandwidth = 4_000_000

abbrev pub bandwidth_error : Option ℕ → Option ProcessSpecError
bandwidth_error none = none
bandwidth_error (some limit) =
    if leb 1 limit && leb limit max_bandwidth then none else some (invalid_bandwidth_limit limit)

-- The checks of `SyncOptions::validate`, in their order. The delay is reported in milliseconds.
unfoldable pub options_error : SyncOptions → Option ProcessSpecError
options_error o =
    if is_some o.deletion_method && not o.safe_delete && not o.destination_cleanup
    then some (invalid_option_combination method_without_removal)
    else if not (leb 1 o.retry_policy.max_attempts && leb o.retry_policy.max_attempts max_attempts)
    then some (invalid_retry_policy o.retry_policy.max_attempts)
    else if ltb max_initial_delay o.retry_policy.initial_delay
    then some (invalid_retry_delay (o.retry_policy.initial_delay / 1_000_000))
    else bandwidth_error o.bandwidth_limit_kib_per_second

unfoldable pub validate : SyncOptions → Result ProcessSpecError ValidatedSyncOptions
unfolding options_error
validate o = elim (options_error o) [ none ↦ ok (record { options = o }) | some e ↦ err e ]
