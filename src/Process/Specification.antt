-- ===== src/Process/Specification.antt =====
-- `ProcessSpecification::from_profile` and the modes that restrict it (process.rs). Whether a path is
-- a directory is asked of the file system.
use sync_plus.Base.{
  ℕ, Bool, false, ◌&&◌, not, Option, none, some, List, [], ◌∷◌, ◌++◌, map, Text, ◌==◌,
  if◌then◌else◌, is_none, is_empty, Result, ok, err, ◌>>=◌, ◌>>◌, require,
}
use mathlib.Core.Option
use mathlib.Core.Option.{or_else}
use sync_plus.Base.Strings.{contains_nul, codes, is_ascii_alphabetic, is_ascii_alphanumeric}
use sync_plus.Base.{all, any, text_eq, nat_eq, ◌||◌}
use sync_plus.Model.{
  SyncMode, one_way, mirror, mode_eq, PeerSide, peer_a, peer_b, SyncOptions, MetadataRequirements,
  side_eq,
}
use sync_plus.Profile.{
  SshPeer, Peer, SyncProfile, root, ssh_peer, is_ssh, selected_source, selected_destination,
  effective_destination_root,
}
use sync_plus.Profile.Visible.{advanced_mode_requirement}
use sync_plus.Process.{
  RsyncFlag, archive, itemize_changes, protect_args, destination_cleanup, end_of_options, owner,
  group, acls, xattrs, SshTarget, SshTransport, ProcessArgument, flag, bandwidth_limit,
  exclusion_pattern, peer_path, remote_peer_path, ssh_transport, ProcessSpecError,
  invalid_option_combination, mirror_with_deletion, invalid_exclusion_pattern, empty_pattern,
  nul_in_pattern, empty_peer_path, nul_in_peer_path, invalid_secret_binding,
  unsupported_ssh_topology, advanced_mode_required, deletion_method_required, validate,
}

abbrev pub specialist_rsync_flags : MetadataRequirements → List RsyncFlag
specialist_rsync_flags m =
    (if m.specialist.ownership then owner ∷ group ∷ [] else [])
    ++ (if m.specialist.access_control_lists then acls ∷ [] else [])
    ++ (if m.specialist.extended_attributes then xattrs ∷ [] else [])

abbrev peer_path_error : Text → Text → Option ProcessSpecError
peer_path_error peer path =
    if is_empty path
    then some (empty_peer_path peer)
    else if contains_nul path
    then some (nul_in_peer_path peer)
    else none

abbrev pub validate_peer_path : Text → Text → Result ProcessSpecError (Unit {0})
validate_peer_path peer path = require (peer_path_error peer path)

abbrev exclusion_error : Text → Option ProcessSpecError
exclusion_error pattern =
    if is_empty pattern
    then some (invalid_exclusion_pattern empty_pattern)
    else if contains_nul pattern
    then some (invalid_exclusion_pattern nul_in_pattern)
    else none

abbrev pub validate_exclusion_pattern : Text → Result ProcessSpecError (Unit {0})
validate_exclusion_pattern pattern = require (exclusion_error pattern)

-- The loop over the exclusions.
abbrev pub exclusion_arguments : List Text → Result ProcessSpecError (List ProcessArgument)
exclusion_arguments [] = ok []
exclusion_arguments (pattern ∷ patterns) = do
  validate_exclusion_pattern pattern
  rest ← exclusion_arguments patterns
  ok (exclusion_pattern pattern ∷ rest)

-- `SshTarget::from_peer`.
abbrev pub target_of : SshPeer → SshTarget
target_of peer = record {
  username = peer.username;
  server = peer.server;
  remote_path = peer.remote_path;
}

-- `SshTarget::from_peer_path`.
abbrev pub target_at_path : SshPeer → Text → Result ProcessSpecError SshTarget
target_at_path peer path = do
  validate_peer_path (codes "remote target") path
  ok (record { username = peer.username; server = peer.server; remote_path = path })

-- `SshTransport::from_peer`.
abbrev pub transport_of : SshPeer → SshTransport
transport_of peer = record {
  port = peer.port;
  identity = peer.identity;
  authentication = peer.authentication;
}

abbrev pub peer_argument : Peer → ProcessArgument
peer_argument peer = elim (ssh_peer peer) [
  | some s ↦ remote_peer_path (target_of s)
  | none ↦ peer_path (root peer)
]

abbrev pub argument_at_path : Option SshPeer → Text → Result ProcessSpecError ProcessArgument
argument_at_path none path = ok (peer_path path)
argument_at_path (some s) path = do target ← target_at_path s path; ok (remote_peer_path target)

pub record ProcessSpecification : Type 0 where
  pub arguments : List ProcessArgument
  pub options : SyncOptions
  pub source : PeerSide
  pub source_root : Text
  pub destination_root : Text
  pub secret_bindings : List Text
  pub mode : SyncMode
  pub peer_a_root : Text
  pub peer_b_root : Text
  pub transport : Option SshTransport
  pub peer_a_ssh : Option SshPeer
  pub peer_b_ssh : Option SshPeer

-- The transport is that of the peer over SSH.
abbrev pub transport_between : SyncProfile → Option SshTransport
transport_between profile =
    Option.map transport_of (or_else (ssh_peer profile.peer_a) (ssh_peer profile.peer_b))

abbrev pub bandwidth_arguments : Option ℕ → List ProcessArgument
bandwidth_arguments none = []
bandwidth_arguments (some limit) = bandwidth_limit limit ∷ []

abbrev pub protect_arguments : Option SshTransport → List ProcessArgument
protect_arguments none = []
protect_arguments (some t) = flag protect_args ∷ []

abbrev pub transport_arguments : Option SshTransport → List ProcessArgument
transport_arguments none = []
transport_arguments (some t) = ssh_transport t ∷ []

-- The options of the command, in the order that they are pushed.
unfoldable pub option_arguments :
    SyncOptions → Option SshTransport → List ProcessArgument → List ProcessArgument
option_arguments o transport exclusions =
    (flag archive ∷ flag itemize_changes ∷ [])
    ++ bandwidth_arguments o.bandwidth_limit_kib_per_second
    ++ protect_arguments transport
    ++ map flag (specialist_rsync_flags o.metadata)
    ++ (if o.destination_cleanup then flag destination_cleanup ∷ [] else [])
    ++ exclusions
    ++ transport_arguments transport

abbrev pub mirror_error : SyncMode → SyncOptions → Option ProcessSpecError
mirror_error mode o =
    if mode == mirror && (o.safe_delete || o.destination_cleanup)
    then some (invalid_option_combination mirror_with_deletion)
    else none

abbrev pub topology_error : SyncProfile → Option ProcessSpecError
topology_error profile =
    if is_ssh profile.peer_a && is_ssh profile.peer_b then some unsupported_ssh_topology else none

module _ (is_dir : Text → Bool) where
  abbrev pub process_destination_root : SyncProfile → Peer → Text
  process_destination_root profile destination =
      if profile.mode == one_way
        && not (is_ssh destination)
        && is_dir (effective_destination_root profile)
      then effective_destination_root profile
      else root destination

  -- In a one-way run the destination's root is the resolved one.
  abbrev side_root : SyncProfile → PeerSide → Text → Text
  side_root profile side destination_root =
      if profile.mode == one_way && not (profile.source == side)
      then destination_root
      else elim side [ peer_a ↦ root profile.peer_a | peer_b ↦ root profile.peer_b ]

  -- The specification of a profile that passes the checks.
  abbrev pub specified :
      SyncProfile → SyncOptions → List ProcessArgument → ProcessArgument → ProcessSpecification
  specified profile options exclusions target =
      let source = selected_source profile in
      let destination_root = process_destination_root profile (selected_destination profile) in
      let transport = transport_between profile in
      record {
        arguments =
            option_arguments options transport exclusions
            ++ (flag end_of_options ∷ peer_argument source ∷ target ∷ []);
        options = options;
        source = profile.source;
        source_root = root source;
        destination_root = destination_root;
        secret_bindings = [];
        mode = profile.mode;
        peer_a_root = side_root profile peer_a destination_root;
        peer_b_root = side_root profile peer_b destination_root;
        transport = transport;
        peer_a_ssh = ssh_peer profile.peer_a;
        peer_b_ssh = ssh_peer profile.peer_b;
      }

  unfoldable pub from_profile : SyncProfile → Result ProcessSpecError ProcessSpecification
  unfolding validate option_arguments
  from_profile profile = do
    validated ← validate profile.options
    require (mirror_error profile.mode validated.options)
    let source = selected_source profile
    let destination = selected_destination profile
    require (topology_error profile)
    let destination_root = process_destination_root profile destination
    validate_peer_path source.name (root source)
    validate_peer_path destination.name destination_root
    exclusions ← exclusion_arguments profile.exclusions
    target ← argument_at_path (ssh_peer destination) destination_root
    ok (specified profile validated.options exclusions target)

  -- An active run must have chosen how removed files are kept.
  unfoldable pub from_profile_for_run : SyncProfile → Result ProcessSpecError ProcessSpecification
  unfolding from_profile
  from_profile_for_run profile = do
    specification ← from_profile profile
    if specification.options.safe_delete && is_none specification.options.deletion_method
        then err deletion_method_required
        else ok specification

  -- Simple Mode does not run a profile with options that it hides.
  unfoldable pub from_profile_for_mode :
      Bool → SyncProfile → Result ProcessSpecError ProcessSpecification
  unfolding from_profile
  from_profile_for_mode simple profile = do
    specification ← from_profile profile
    elim (advanced_mode_requirement profile) [
      | none ↦ ok specification
      | some option ↦ if simple then err (advanced_mode_required option) else ok specification
    ]

abbrev is_valid_secret_binding_name : Text → Bool
is_valid_secret_binding_name [] = false
is_valid_secret_binding_name (b ∷ bs) =
    (b == b'_' || is_ascii_alphabetic b) && all (λ c. c == b'_' || is_ascii_alphanumeric c) bs

abbrev pub with_secret_binding :
    ProcessSpecification → Text → Result ProcessSpecError ProcessSpecification
with_secret_binding specification name =
    if not (is_valid_secret_binding_name name)
    then err (invalid_secret_binding name)
    else if any (λ binding. binding == name) specification.secret_bindings
    then ok specification
    else ok
        (record specification { secret_bindings = specification.secret_bindings ++ (name ∷ []) })
