-- ===== src/Process/Invocation/Items.antt =====
-- The commands of process.rs for one item, locally and over SSH, split as rsync splits them.
use sync_plus.Base.{
  false, Option, none, some, List, [], ◌∷◌, ◌++◌, map, Text, contains, All, All-append, text_eq,
  nat_eq, ◌≡◌, refl, arith, sym, ap, ◌∙◌, ok, ok-injective, inl, inr, bind_ok, require_ok, require,
  any, not, is_empty, ◌⊎◌,
}
use sync_plus.Base.Strings.{codes}
use sync_plus.Model.{
  mode_eq, opposite, PeerSide, peer_a, peer_b, PlanActionKind, copy_to_destination,
  overwrite_destination, remove_destination, remove_source_after_verification,
}
use sync_plus.Path.{Component, root_dir, cur_dir, parent_dir, normal}
use sync_plus.Path.Parse.{has_root, join, parse_components}
use sync_plus.Profile.{SshPeer}
use sync_plus.Process.{
  ProcessArgument, flag, protect_args, end_of_options, peer_path, remote_peer_path,
}
use sync_plus.Process.Specification.{
  target_at_path, validate_peer_path, ProcessSpecification, transport_arguments,
}
use sync_plus.Process.Invocation.{
  to_os_string, ProcessInvocation, item_invocation, remote_error, local_error, TransferAction,
  transfer_kind_error, transfer_path_error, ssh_item_invocation_to, peer_argument_at,
  peer_argument_at_path, item_argument, is_normal,
}
use sync_plus.Process.Invocation.Options.{
  common_options, common_options-IsHarmless, protection-IsHarmless,
}
use sync_plus.Process.Invocation.Guarded.{
  options_of, operands_of, IsHarmless, options_of-append, operands_of-append, contains-harmless,
  harmless-IsLong, transport-IsHarmless,
}
use sync_plus.Process.Invocation.Commands.{
  target_argument, argument_at_path_ok, IsLongOption, options_of-IsLongOption,
}

-- A command whose options are all harmless.
harmless_command :
    (options operands : List ProcessArgument) (call : ProcessInvocation)
    → All IsHarmless options
    → call.arguments ≡ map to_os_string (options ++ (flag end_of_options ∷ operands))
    → (operands_of call.arguments ≡ map to_os_string operands)
      × (contains (options_of call.arguments) (codes "--delete") ≡ false)
harmless_command options operands call harmless arguments =
    let long = harmless-IsLong options harmless in
    (
      ap operands_of arguments ∙ operands_of-append options operands long,
      ap (λ ts. contains (options_of ts) (codes "--delete")) arguments
          ∙ ap (λ ts. contains ts (codes "--delete")) (options_of-append options operands long)
          ∙ contains-harmless options harmless,
    )

-- The local transfer of one item copies the source to the temporary destination and deletes nothing,
-- whatever the profile's options are.
pub item_invocation-IsHarmless :
    (spec : ProcessSpecification) (source temporary_destination : Text) {call : ProcessInvocation}
    → item_invocation spec source temporary_destination ≡ ok call
    → (operands_of call.arguments ≡ source ∷ temporary_destination ∷ [])
      × (contains (options_of call.arguments) (codes "--delete") ≡ false)
unfolding item_invocation
item_invocation-IsHarmless spec source temporary_destination {call} h =
    let (_, _, h1) = bind_ok (require (remote_error spec)) _ h in
    let (_, _, h2) = bind_ok (validate_peer_path (codes "item source") source) _ h1 in
    let (_, _, h3) =
      bind_ok (validate_peer_path (codes "temporary destination") temporary_destination) _ h2 in
    harmless_command (common_options spec.options [])
      (peer_path source ∷ peer_path temporary_destination ∷ []) call
      (common_options-IsHarmless spec.options [] tt)
      (sym (ap (λ (c : ProcessInvocation). c.arguments) (ok-injective h3)))

-- Where an item stands on a peer: under its local root, or under the remote path of its account.
abbrev item_operand : Option SshPeer → Text → Text → ProcessArgument
item_operand none side_root path = peer_path (join side_root path)
item_operand (some s) side_root path =
    remote_peer_path
      (record { username = s.username; server = s.server; remote_path = join s.remote_path path })

abbrev pub source_operand : ProcessSpecification → PeerSide → Text → ProcessArgument
source_operand spec peer_a path = item_operand spec.peer_a_ssh spec.peer_a_root path
source_operand spec peer_b path = item_operand spec.peer_b_ssh spec.peer_b_root path

-- The destination, on the peer that is not the source.
abbrev pub other_operand : ProcessSpecification → PeerSide → Text → ProcessArgument
other_operand spec peer_a path = target_argument spec.peer_b_ssh path
other_operand spec peer_b path = target_argument spec.peer_a_ssh path

item_argument_ok :
    (spec : ProcessSpecification) (s : Option SshPeer) (side_root path : Text) {a : ProcessArgument}
    → item_argument spec s side_root path ≡ ok a
    → a ≡ item_operand s side_root path
item_argument_ok spec none side_root path h = sym (ok-injective h)
item_argument_ok spec (some s) side_root path h =
    let (_, _, h1) = bind_ok (require (transfer_path_error path)) _ h in
    let (target, e, h2) = bind_ok (target_at_path s (join s.remote_path path)) _ h1 in
    let (_, _, h3) =
      bind_ok (validate_peer_path (codes "remote target") (join s.remote_path path)) _ e in
    sym (ok-injective h2) ∙ ap remote_peer_path (sym (ok-injective h3))

peer_argument_at_ok :
    (spec : ProcessSpecification) (side : PeerSide) (path : Text) {a : ProcessArgument}
    → peer_argument_at spec side path ≡ ok a
    → a ≡ source_operand spec side path
peer_argument_at_ok spec peer_a path h =
    item_argument_ok spec spec.peer_a_ssh spec.peer_a_root path
      (bind_ok (require (transfer_path_error path)) _ h).2
peer_argument_at_ok spec peer_b path h =
    item_argument_ok spec spec.peer_b_ssh spec.peer_b_root path
      (bind_ok (require (transfer_path_error path)) _ h).2

peer_argument_at_path_ok :
    (spec : ProcessSpecification) (side : PeerSide) (path : Text) {a : ProcessArgument}
    → peer_argument_at_path spec (opposite side) path ≡ ok a
    → a ≡ other_operand spec side path
peer_argument_at_path_ok spec peer_a path h =
    argument_at_path_ok spec.peer_b_ssh path
      (bind_ok (validate_peer_path (codes "transfer destination") path) _ h).2
peer_argument_at_path_ok spec peer_b path h =
    argument_at_path_ok spec.peer_a_ssh path
      (bind_ok (validate_peer_path (codes "transfer destination") path) _ h).2

-- A path that stays below the folder that it is joined to: relative, not empty, and of names alone.
abbrev pub IsNames : Text → Type 0
IsNames path =
    (is_empty path ≡ false)
    × (has_root path ≡ false)
    × ((names : List Text) × (parse_components path ≡ map normal names))

names_of :
    (cs : List Component)
    → any (λ c. not (is_normal c)) cs ≡ false
    → (names : List Text) × (cs ≡ map normal names)
names_of [] h = ([], refl)
names_of (normal part ∷ cs) h =
    let (names, e) = names_of cs h in (part ∷ names, ap (λ rest. normal part ∷ rest) e)
names_of (root_dir ∷ cs) h = ground (arith, h)
names_of (cur_dir ∷ cs) h = ground (arith, h)
names_of (parent_dir ∷ cs) h = ground (arith, h)

transfer_path_error-IsNames : (path : Text) → transfer_path_error path ≡ none → IsNames path
transfer_path_error-IsNames path h =
    (ground (arith, h), ground (arith, h), names_of (parse_components path) (ground (arith, h)))

transfer_kind_error_lem :
    (kind : PlanActionKind)
    → transfer_kind_error kind ≡ none
    → (kind ≡ copy_to_destination) ⊎ (kind ≡ overwrite_destination)
transfer_kind_error_lem copy_to_destination h = inl refl
transfer_kind_error_lem overwrite_destination h = inr refl
transfer_kind_error_lem remove_destination h = cc
transfer_kind_error_lem remove_source_after_verification h = cc

-- The command for one item over SSH: after `--` stand two operands and no more, the item on the
-- action's source side and the destination on the other peer; before it stand long options alone,
-- none of them `--delete`. It is built only for a plan's copy or overwrite of a path that is relative,
-- not empty, and of names alone.
pub ssh_item_invocation_to-IsHarmless :
    (spec : ProcessSpecification) (action : TransferAction) (destination : Text)
    {call : ProcessInvocation}
    → ssh_item_invocation_to spec action destination ≡ ok call
    → (operands_of call.arguments
        ≡ to_os_string (source_operand spec action.source_side action.relative_path)
          ∷ to_os_string (other_operand spec action.source_side destination)
          ∷ [])
      × (contains (options_of call.arguments) (codes "--delete") ≡ false)
      × All IsLongOption (options_of call.arguments)
      × ((action.kind ≡ copy_to_destination) ⊎ (action.kind ≡ overwrite_destination))
      × IsNames action.relative_path
unfolding ssh_item_invocation_to
ssh_item_invocation_to-IsHarmless spec action destination {call} h =
    let (_, _, h1) = bind_ok (require (local_error spec)) _ h in
    let (_, kind, h2) = bind_ok (require (transfer_kind_error action.kind)) _ h1 in
    let (_, path, h3) = bind_ok (require (transfer_path_error action.relative_path)) _ h2 in
    let (source, at_source, h4) =
      bind_ok (peer_argument_at spec action.source_side action.relative_path) _ h3 in
    let (target, at_target, h5) =
      bind_ok (peer_argument_at_path spec (opposite action.source_side) destination) _ h4 in
    let options = ssh_options spec in
    let harmless = ssh_options-IsHarmless spec in
    let arguments = sym (ap (λ (c : ProcessInvocation). c.arguments) (ok-injective h5)) in
    let (operands, kept) =
      harmless_command options (source ∷ target ∷ []) call harmless arguments in
    (
      operands
          ∙ ap (λ a. to_os_string a ∷ to_os_string target ∷ [])
              (peer_argument_at_ok spec action.source_side action.relative_path at_source)
          ∙ ap
              (λ a.
                to_os_string (source_operand spec action.source_side action.relative_path)
                ∷ to_os_string a
                ∷ [])
              (peer_argument_at_path_ok spec action.source_side destination at_target),
      kept,
      options_of-IsLongOption options (source ∷ target ∷ []) call (harmless-IsLong options harmless)
          arguments,
      transfer_kind_error_lem action.kind (require_ok _ kind),
      transfer_path_error-IsNames action.relative_path (require_ok _ path),
    )
  where
    ssh_options : ProcessSpecification → List ProcessArgument
    ssh_options spec =
        common_options spec.options (flag protect_args ∷ []) ++ transport_arguments spec.transport

    ssh_options-IsHarmless : (spec : ProcessSpecification) → All IsHarmless (ssh_options spec)
    ssh_options-IsHarmless spec =
        All-append IsHarmless (common_options spec.options (flag protect_args ∷ []))
          (transport_arguments spec.transport)
          (common_options-IsHarmless spec.options (flag protect_args ∷ []) protection-IsHarmless)
          (transport-IsHarmless spec.transport)
