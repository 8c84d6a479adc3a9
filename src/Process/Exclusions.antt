-- ===== src/Process/Exclusions.antt =====
-- The exclusions of a specification, read back from its arguments (process.rs).
use mathlib.Core.Path.{ap₂}
use mathlib.Core.List.{append-nil}
use sync_plus.Base.{
  Bool, true, false, Option, none, some, List, [], ◌∷◌, ◌++◌, map, Text, if◌then◌else◌, ok, ◌≡◌,
  refl, arith, ap, ◌∙◌, ℕ,
}
use sync_plus.Model.{SyncOptions}
use sync_plus.Profile.{SyncProfile, Peer, local_root, ssh_endpoint, SshPeer, selected_source}
use sync_plus.Process.{
  RsyncFlag, flag, ProcessArgument, exclusion_pattern, end_of_options, destination_cleanup,
  SshTransport,
}
use sync_plus.Process.Specification.{
  ProcessSpecification, bandwidth_arguments, protect_arguments, transport_arguments,
  option_arguments, transport_between, peer_argument, from_profile,
}
use sync_plus.Process.Accepted.{from_profile-IsAccepted}
use sync_plus.Process.Invocation.Commands.{target_argument, argument_at_path_ok}

abbrev exclusions_in : List ProcessArgument → List Text
exclusions_in [] = []
exclusions_in (exclusion_pattern pattern ∷ arguments) = pattern ∷ exclusions_in arguments
exclusions_in (a ∷ arguments) = exclusions_in arguments

-- `ProcessSpecification::exclusions`.
abbrev pub exclusions : ProcessSpecification → List Text
exclusions spec = exclusions_in spec.arguments

exclusions_in-append :
    (xs ys : List ProcessArgument) → exclusions_in (xs ++ ys) ≡ exclusions_in xs ++ exclusions_in ys
exclusions_in-append [] ys = refl
exclusions_in-append (a ∷ xs) ys = ground (arith, exclusions_in-append xs ys)

exclusions_in-flags : (fs : List RsyncFlag) → exclusions_in (map flag fs) ≡ []
exclusions_in-flags [] = refl
exclusions_in-flags (f ∷ fs) = exclusions_in-flags fs

exclusions_in-patterns : (ps : List Text) → exclusions_in (map exclusion_pattern ps) ≡ ps
exclusions_in-patterns [] = refl
exclusions_in-patterns (p ∷ ps) = ap (◌∷◌ p) (exclusions_in-patterns ps)

exclusions_in-cleanup :
    (b : Bool) → exclusions_in (if b then flag destination_cleanup ∷ [] else []) ≡ []
exclusions_in-cleanup true = refl
exclusions_in-cleanup false = refl

exclusions_in-bandwidth : (limit : Option ℕ) → exclusions_in (bandwidth_arguments limit) ≡ []
exclusions_in-bandwidth none = refl
exclusions_in-bandwidth (some l) = refl

exclusions_in-protect : (t : Option SshTransport) → exclusions_in (protect_arguments t) ≡ []
exclusions_in-protect none = refl
exclusions_in-protect (some t) = refl

exclusions_in-transport : (t : Option SshTransport) → exclusions_in (transport_arguments t) ≡ []
exclusions_in-transport none = refl
exclusions_in-transport (some t) = refl

exclusions_in-peer :
    (s : Option SshPeer) (path : Text) → exclusions_in (target_argument s path ∷ []) ≡ []
exclusions_in-peer none path = refl
exclusions_in-peer (some s) path = refl

exclusions_in-option_arguments :
    (o : SyncOptions) (t : Option SshTransport) (ps : List Text)
    → exclusions_in (option_arguments o t (map exclusion_pattern ps)) ≡ ps
unfolding option_arguments
exclusions_in-option_arguments o t ps = simp (
  exclusions_in-append, exclusions_in-bandwidth, exclusions_in-protect, exclusions_in-flags,
  exclusions_in-cleanup, exclusions_in-patterns, exclusions_in-transport, append-nil,
)

exclusions_in-operands :
    (peer : Peer) (s : Option SshPeer) (path : Text)
    → exclusions_in (flag end_of_options ∷ peer_argument peer ∷ target_argument s path ∷ []) ≡ []
exclusions_in-operands peer s path =
    elim peer.endpoint
      as (λ e.
        exclusions_in (
          flag end_of_options
          ∷ peer_argument (record { name = peer.name; endpoint = e })
          ∷ target_argument s path
          ∷ [])
        ≡ []) [
          | local_root r ↦ exclusions_in-peer s path
          | ssh_endpoint x ↦ exclusions_in-peer s path
        ]

-- The exclusions read back from a specification are those of its profile, in their order.
pub exclusions-from_profile :
    (is_dir : Text → Bool) (profile : SyncProfile) {spec : ProcessSpecification}
    → from_profile is_dir profile ≡ ok spec
    → exclusions spec ≡ profile.exclusions
exclusions-from_profile is_dir profile accepted =
    ap exclusions built
    ∙ exclusions_in-append options (flag end_of_options ∷ peer_argument source ∷ target ∷ [])
    ∙ ap₂ ◌++◌ (exclusions_in-option_arguments profile.options transport profile.exclusions) (
        ap (λ a. exclusions_in (flag end_of_options ∷ peer_argument source ∷ a ∷ []))
          (argument_at_path_ok _ _ target_ok)
        ∙ exclusions_in-operands source _ _)
    ∙ append-nil profile.exclusions
  where
    open (from_profile-IsAccepted is_dir profile accepted) use {target, target_ok, built}

    source : Peer
    source = selected_source profile

    transport : Option SshTransport
    transport = transport_between profile

    options : List ProcessArgument
    options = option_arguments profile.options transport (map exclusion_pattern profile.exclusions)
