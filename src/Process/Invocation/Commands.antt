-- ===== src/Process/Invocation/Commands.antt =====
-- The command lines of process.rs, split as rsync splits them.
use sync_plus.Base.{
  Bool, false, Option, none, some, List, [], ◌∷◌, ◌++◌, map, Text, ◌==◌, contains, All, text_eq,
  nat_eq, ◌≡◌, refl, arith, sym, subst, ap, ◌∙◌, ok, ok-injective, Bool-cases, inl, inr, bind_ok, ℕ,
}
use sync_plus.Base.Strings.{codes}
use sync_plus.Model.{SyncMode, one_way, mirror, mode_eq}
use sync_plus.Profile.{SyncProfile, SshPeer, ssh_peer, selected_source, selected_destination}
use sync_plus.Process.{
  ProcessArgument, flag, end_of_options, exclusion_pattern, peer_path, remote_peer_path,
}
use sync_plus.Process.Specification.{
  transport_between, target_at_path, argument_at_path, validate_peer_path, ProcessSpecification,
  option_arguments, peer_argument, from_profile,
}
use sync_plus.Process.Accepted.{from_profile-IsAccepted}
use sync_plus.Process.Invocation.{to_os_string, ProcessInvocation, invocation}
use sync_plus.Process.Invocation.Options.{
  IsOption, is_delete_among-option_arguments, option_arguments-IsLong,
}
use sync_plus.Process.Invocation.Guarded.{
  options_of, operands_of, IsLong, options_of-append, operands_of-append,
}

-- The operand for the destination: the path, or the path on the remote peer.
abbrev pub target_argument : Option SshPeer → Text → ProcessArgument
target_argument none path = peer_path path
target_argument (some s) path =
    remote_peer_path (record { username = s.username; server = s.server; remote_path = path })

pub argument_at_path_ok :
    (s : Option SshPeer) (path : Text) {a : ProcessArgument}
    → argument_at_path s path ≡ ok a
    → a ≡ target_argument s path
argument_at_path_ok none path h = sym (ok-injective h)
argument_at_path_ok (some s) path h =
    let (target, e, h1) = bind_ok (target_at_path s path) _ h in
    let (_, _, h2) = bind_ok (validate_peer_path (codes "remote target") path) _ e in
    sym (ok-injective h1) ∙ ap remote_peer_path (sym (ok-injective h2))

not_mirror : (mode : SyncMode) → (mode == mirror) ≡ false → mode ≡ one_way
not_mirror one_way h = refl
not_mirror mirror h = ground arith

invocation_ok :
    (spec : ProcessSpecification) {call : ProcessInvocation}
    → invocation spec ≡ ok call
    → (spec.mode ≡ one_way) × (call.arguments ≡ map to_os_string spec.arguments)
unfolding invocation
invocation_ok spec h = elim (Bool-cases (spec.mode == mirror)) [
  | inl e ↦ ground (arith, e)
  | inr e ↦ (not_mirror spec.mode e, ground (arith, e))
]

-- A long option, as rsync reads one: two dashes and a name.
abbrev pub IsLongOption : Text → Type 0
IsLongOption t = (c : ℕ) × IsLong c t

All-to_os_string :
    (arguments : List ProcessArgument)
    → All IsOption arguments
    → All IsLongOption (map to_os_string arguments)
All-to_os_string [] h = tt
All-to_os_string (a ∷ arguments) (h, hs) = (h, All-to_os_string arguments hs)

-- A command whose arguments are long options, `--`, and the operands.
pub options_of-IsLongOption :
    (options operands : List ProcessArgument) (call : ProcessInvocation)
    → All IsOption options
    → call.arguments ≡ map to_os_string (options ++ (flag end_of_options ∷ operands))
    → All IsLongOption (options_of call.arguments)
options_of-IsLongOption options operands call long arguments =
    subst (All IsLongOption)
      (sym (ap options_of arguments ∙ options_of-append options operands long))
      (All-to_os_string options long)

-- The whole-tree command of an accepted profile: every argument before `--` is a long option, after
-- it stand the source and the resolved destination, and `--delete` is passed exactly if the profile
-- asks for Destination Cleanup. Such a profile is one-way.
pub invocation-IsGuarded :
    (is_dir : Text → Bool) (profile : SyncProfile) {spec : ProcessSpecification}
    {call : ProcessInvocation}
    → from_profile is_dir profile ≡ ok spec
    → invocation spec ≡ ok call
    → (operands_of call.arguments
        ≡ to_os_string (peer_argument (selected_source profile))
          ∷ to_os_string
              (target_argument (ssh_peer (selected_destination profile)) spec.destination_root)
          ∷ [])
      × (contains (options_of call.arguments) (codes "--delete")
          ≡ profile.options.destination_cleanup)
      × All IsLongOption (options_of call.arguments)
      × (profile.mode ≡ one_way)
invocation-IsGuarded is_dir profile {spec} {call} accepted called = (
  ap operands_of arguments ∙ operands_of-append options operands long,
  ap (λ ts. contains (options_of ts) (codes "--delete")) arguments
      ∙ ap (λ ts. contains ts (codes "--delete")) (options_of-append options operands long)
      ∙ is_delete_among-option_arguments profile.options spec.transport profile.exclusions,
  options_of-IsLongOption options operands call long arguments,
  sym (ap (λ (s : ProcessSpecification). s.mode) built) ∙ (invocation_ok spec called).0,
)
  where
    open (from_profile-IsAccepted is_dir profile accepted) use {target, target_ok, built}

    options : List ProcessArgument
    options =
        option_arguments profile.options spec.transport (map exclusion_pattern profile.exclusions)

    operands : List ProcessArgument
    operands =
        peer_argument (selected_source profile)
        ∷ target_argument (ssh_peer (selected_destination profile)) spec.destination_root
        ∷ []

    long : All IsOption options
    long = option_arguments-IsLong profile.options spec.transport profile.exclusions

    passed : List ProcessArgument
    passed = map exclusion_pattern profile.exclusions

    placed : spec.arguments ≡ options ++ (flag end_of_options ∷ operands)
    placed =
        subst
          (λ (s : ProcessSpecification).
            s.arguments
            ≡ option_arguments profile.options s.transport passed
              ++ (flag end_of_options
                  ∷ peer_argument (selected_source profile)
                  ∷ target_argument (ssh_peer (selected_destination profile)) s.destination_root
                  ∷ []))
          (sym built)
          (ap
            (λ a.
              option_arguments profile.options (transport_between profile) passed
              ++ (flag end_of_options ∷ peer_argument (selected_source profile) ∷ a ∷ []))
            (argument_at_path_ok _ _ target_ok))

    arguments : call.arguments ≡ map to_os_string (options ++ (flag end_of_options ∷ operands))
    arguments = (invocation_ok spec called).1 ∙ ap (map to_os_string) placed
