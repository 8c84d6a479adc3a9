-- ===== src/Process/Accepted.antt =====
-- The profiles that `ProcessSpecification::from_profile` accepts, and the specification it returns.
use sync_plus.Base.{
  Bool, none, List, [], ◌∷◌, map, Text, ok, require, bind_ok, require_ok, ◌≡◌, arith, Option-cases,
  inl, inr, sym, ap, ◌∙◌, ok-injective,
}
use sync_plus.Model.{mode_eq, SyncOptions}
use sync_plus.Profile.{SyncProfile, ssh_peer, selected_destination}
use sync_plus.Process.{
  ProcessArgument, exclusion_pattern, ValidatedSyncOptions, options_error, validate,
}
use sync_plus.Process.Specification.{
  ProcessSpecification, exclusion_arguments, argument_at_path, mirror_error, topology_error,
  process_destination_root, specified, from_profile, validate_exclusion_pattern, validate_peer_path,
}

validate_ok :
    (o : SyncOptions) {v : ValidatedSyncOptions}
    → validate o ≡ ok v
    → (options_error o ≡ none) × (v.options ≡ o)
unfolding validate
validate_ok o {v} h = elim (Option-cases (options_error o)) [
  | inl e ↦ (e, ground (arith, e))
  | inr (x, e) ↦ ground (arith, e)
]

-- The exclusions become arguments in their order.
exclusion_arguments_ok :
    (patterns : List Text) {arguments : List ProcessArgument}
    → exclusion_arguments patterns ≡ ok arguments
    → arguments ≡ map exclusion_pattern patterns
exclusion_arguments_ok [] h = sym (ok-injective h)
exclusion_arguments_ok (p ∷ ps) {arguments} h =
    let (_, _, h1) = bind_ok (validate_exclusion_pattern p) _ h in
    let (rest, e, h2) = bind_ok (exclusion_arguments ps) _ h1 in
    sym (ok-injective h2) ∙ ap (◌∷◌ (exclusion_pattern p)) (exclusion_arguments_ok ps e)

module _ (is_dir : Text → Bool) (profile : SyncProfile) where
  pub record IsAccepted (spec : ProcessSpecification) : Type 0 where
    pub options : options_error profile.options ≡ none
    pub deletion : mirror_error profile.mode profile.options ≡ none
    pub topology : topology_error profile ≡ none
    pub target : ProcessArgument
    pub target_ok :
        argument_at_path
          (ssh_peer (selected_destination profile))
          (process_destination_root is_dir profile (selected_destination profile))
        ≡ ok target
    pub built :
        spec
        ≡ specified is_dir profile profile.options (map exclusion_pattern profile.exclusions) target

  pub from_profile-IsAccepted :
      {spec : ProcessSpecification} → from_profile is_dir profile ≡ ok spec → IsAccepted spec
  unfolding from_profile
  from_profile-IsAccepted {spec} h =
      let (v, e0, h0) = bind_ok (validate profile.options) _ h in
      let (_, e1, h1) = bind_ok (require (mirror_error profile.mode v.options)) _ h0 in
      let (_, e2, h2) = bind_ok (require (topology_error profile)) _ h1 in
      let (_, e3, h3) = bind_ok (validate_peer_path _ _) _ h2 in
      let (_, e4, h4) = bind_ok (validate_peer_path _ _) _ h3 in
      let (exclusions, e5, h5) = bind_ok (exclusion_arguments profile.exclusions) _ h4 in
      let (target, e6, h6) = bind_ok (argument_at_path _ _) _ h5 in
      let (o, same) = validate_ok profile.options e0 in
      record {
        options = o;
        deletion = rw (← same) (require_ok _ e1);
        topology = require_ok _ e2;
        target = target;
        target_ok = e6;
        built =
            sym (ok-injective h6)
            ∙ ap (λ o. specified is_dir profile o exclusions target) same
            ∙ ap (λ es. specified is_dir profile profile.options es target)
                (exclusion_arguments_ok profile.exclusions e5);
      }
