-- ===== src/Process/Invocation.antt =====
-- The texts that a command passes, and the commands of process.rs: a whole-tree run, and the
-- transfer of one item locally or over SSH.
pub mod Guarded
pub mod Options
pub mod Commands
pub mod Items
use sync_plus.Base.{
  ℕ, Bool, true, false, ◌&&◌, ◌||◌, not, Option, none, some, List, [], ◌∷◌, ◌++◌, map, Text, ◌==◌,
  ◌/=◌, if◌then◌else◌, is_some, is_none, is_empty, any, Result, ok, err, ◌>>=◌, ◌>>◌, require,
}
use sync_plus.Base.Strings.{codes}
use sync_plus.Base.Decimal.{decimal}
use sync_plus.Path.{Component, normal}
use sync_plus.Path.Parse.{has_root, join, parse_components}
use sync_plus.Model.{
  SyncMode, one_way, mirror, mode_eq, PeerSide, peer_a, peer_b, side_eq, opposite, PlanActionKind,
  copy_to_destination, overwrite_destination, remove_destination, remove_source_after_verification,
}
use sync_plus.Profile.{SshPeer, SshAuthentication, key, agent, interactive_password, saved_password}
use sync_plus.Process.{
  RsyncFlag, archive, itemize_changes, protect_args, end_of_options, flag_text, SshTarget,
  SshTransport, ProcessArgument, flag, bandwidth_limit, exclusion_pattern, peer_path,
  remote_peer_path, ssh_transport, ProcessSpecError, unsupported_ssh_filesystem_operation,
  mirror_requires_reviewed_plan, action_not_allowed, action_source_mismatch, invalid_transfer_path,
}
use sync_plus.Process.Specification.{
  ProcessSpecification, specialist_rsync_flags, bandwidth_arguments, transport_arguments,
  validate_peer_path, target_at_path, argument_at_path,
}
use sync_plus.Process.Shell.{encode_remote_shell_word}

-- One item of the command line: rsync does the escaping for the remote shell.
abbrev pub target_text : SshTarget → Text
target_text target =
    target.username ++ codes "@" ++ target.server ++ codes ":" ++ target.remote_path

abbrev identity_text : Option Text → Text
identity_text none = []
identity_text (some path) = codes " -i " ++ encode_remote_shell_word path

abbrev no_password : Text
no_password =
    codes
      " -o PreferredAuthentications=publickey -o PasswordAuthentication=no -o KbdInteractiveAuthentication=no"

abbrev authentication_text : SshAuthentication → Option Text → Text
authentication_text key identity =
    codes " -o IdentitiesOnly=yes -o IdentityAgent=none" ++ no_password ++ identity_text identity
authentication_text agent identity = codes " -o IdentityFile=none" ++ no_password
authentication_text _ identity =
    codes
      " -o IdentityFile=none -o IdentityAgent=none -o PreferredAuthentications=keyboard-interactive,password -o PasswordAuthentication=yes -o KbdInteractiveAuthentication=yes"

abbrev pub transport_text : SshTransport → Text
transport_text t =
    codes "--rsh=ssh -p " ++ decimal t.port ++ authentication_text t.authentication t.identity

unfoldable pub to_os_string : ProcessArgument → Text
unfolding encode_remote_shell_word decimal
to_os_string (flag f) = flag_text f
to_os_string (bandwidth_limit limit) = codes "--bwlimit=" ++ decimal limit
to_os_string (exclusion_pattern pattern) = codes "--exclude=" ++ pattern
to_os_string (peer_path path) = path
to_os_string (remote_peer_path target) = target_text target
to_os_string (ssh_transport t) = transport_text t

pub record ProcessInvocation : Type 0 where
  pub program : Text
  pub arguments : List Text
  pub secret_bindings : List Text

-- A command line that runs rsync.
abbrev rsync : List ProcessArgument → List Text → ProcessInvocation
rsync arguments bindings = record {
  program = codes "rsync";
  arguments = map to_os_string arguments;
  secret_bindings = bindings;
}

-- `ProcessSpecification::invocation`.
unfoldable pub invocation : ProcessSpecification → Result ProcessSpecError ProcessInvocation
unfolding to_os_string
invocation spec =
    if spec.mode == mirror
    then err mirror_requires_reviewed_plan
    else ok (rsync spec.arguments spec.secret_bindings)

-- The options that the commands for one item share.
abbrev pub item_options : ProcessSpecification → List ProcessArgument → List ProcessArgument
item_options spec protection =
    (flag archive ∷ flag itemize_changes ∷ [])
    ++ bandwidth_arguments spec.options.bandwidth_limit_kib_per_second
    ++ protection
    ++ map flag (specialist_rsync_flags spec.options.metadata)

-- `ensure_local_filesystem_operations`.
abbrev pub remote_error : ProcessSpecification → Option ProcessSpecError
remote_error spec =
    if is_some spec.transport then some unsupported_ssh_filesystem_operation else none

abbrev pub local_error : ProcessSpecification → Option ProcessSpecError
local_error spec =
    if is_none spec.transport then some unsupported_ssh_filesystem_operation else none

-- `ProcessSpecification::item_invocation`.
unfoldable pub item_invocation :
    ProcessSpecification → Text → Text → Result ProcessSpecError ProcessInvocation
unfolding to_os_string
item_invocation spec source temporary_destination = do
  require (remote_error spec)
  validate_peer_path (codes "item source") source
  validate_peer_path (codes "temporary destination") temporary_destination
  ok (
      rsync
        (item_options spec []
          ++ (flag end_of_options ∷ peer_path source ∷ peer_path temporary_destination ∷ []))
        [])

-- What a transfer reads of a plan's action.
pub record TransferAction : Type 0 where
  pub kind : PlanActionKind
  pub source_side : PeerSide
  pub relative_path : Text

abbrev pub is_normal : Component → Bool
is_normal (normal part) = true
is_normal _ = false

abbrev pub transfer_path_error : Text → Option ProcessSpecError
transfer_path_error path =
    if is_empty path || has_root path || any (λ c. not (is_normal c)) (parse_components path)
    then some (invalid_transfer_path path)
    else none

abbrev pub transfer_kind_error : PlanActionKind → Option ProcessSpecError
transfer_kind_error copy_to_destination = none
transfer_kind_error overwrite_destination = none
transfer_kind_error kind = some (action_not_allowed kind)

module _ (spec : ProcessSpecification) where
  abbrev pub root_on : PeerSide → Text
  root_on peer_a = spec.peer_a_root
  root_on peer_b = spec.peer_b_root

  abbrev pub ssh_on : PeerSide → Option SshPeer
  ssh_on peer_a = spec.peer_a_ssh
  ssh_on peer_b = spec.peer_b_ssh

  abbrev pub item_argument : Option SshPeer → Text → Text → Result ProcessSpecError ProcessArgument
  item_argument none side_root relative_path = ok (peer_path (join side_root relative_path))
  item_argument (some peer) side_root relative_path = do
    require (transfer_path_error relative_path)
    target ← target_at_path peer (join peer.remote_path relative_path)
    ok (remote_peer_path target)

  abbrev pub peer_argument_at : PeerSide → Text → Result ProcessSpecError ProcessArgument
  peer_argument_at side relative_path = do
    require (transfer_path_error relative_path)
    item_argument (ssh_on side) (root_on side) relative_path

  abbrev pub peer_argument_at_path : PeerSide → Text → Result ProcessSpecError ProcessArgument
  peer_argument_at_path side path = do
    validate_peer_path (codes "transfer destination") path
    argument_at_path (ssh_on side) path

  -- `ProcessSpecification::ssh_item_invocation_to`.
  unfoldable pub ssh_item_invocation_to :
      TransferAction → Text → Result ProcessSpecError ProcessInvocation
  unfolding to_os_string
  ssh_item_invocation_to action destination = do
    require (local_error spec)
    require (transfer_kind_error action.kind)
    require (transfer_path_error action.relative_path)
    source ← peer_argument_at action.source_side action.relative_path
    target ← peer_argument_at_path (opposite action.source_side) destination
    ok (
        rsync
          (item_options spec (flag protect_args ∷ [])
            ++ transport_arguments spec.transport
            ++ (flag end_of_options ∷ source ∷ target ∷ []))
          spec.secret_bindings)

  abbrev source_mismatch : TransferAction → Option ProcessSpecError
  source_mismatch action =
      if spec.mode == one_way && action.source_side /= spec.source
      then some action_source_mismatch
      else none

  abbrev local_checks : TransferAction → Result ProcessSpecError (Unit {0})
  local_checks action = do
    require (source_mismatch action)
    require (remote_error spec)
    require (transfer_path_error action.relative_path)

  abbrev pub source_path : TransferAction → Result ProcessSpecError Text
  source_path action = do
    local_checks action
    ok (join (root_on action.source_side) action.relative_path)

  abbrev pub destination_path : TransferAction → Result ProcessSpecError Text
  destination_path action = do
    local_checks action
    ok (join (root_on (opposite action.source_side)) action.relative_path)

  unfoldable pub transfer_paths : TransferAction → Result ProcessSpecError (Text × Text)
  transfer_paths action = do
    require (transfer_kind_error action.kind)
    local_checks action
    source ← source_path action
    destination ← destination_path action
    ok (source, destination)
