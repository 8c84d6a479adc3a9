-- ===== src/Storage/Encoding/Restored.antt =====
-- What the columns of a row give back of the profile that they were made of.
use mathlib.Core.Option
use sync_plus.Base.{
  ℕ, ◌^◌, ◌*◌, ◌/◌, ◌≤◌, ◌<◌, Bool, true, ◌||◌, Option, none, some, Text, Result, ok, ◌>>◌, nat_eq,
  text_eq, ◌≡◌, refl, sym, ap, arith, bind_ok, Bool-cases, inl, inr, subst,
}
use sync_plus.Base.Int.{int_eq}
use sync_plus.Model.{SyncOptions}
use sync_plus.Process.{options_error, bandwidth_error}
use sync_plus.Process.Specification.{from_profile}
use sync_plus.Process.Accepted.{from_profile-IsAccepted}
use sync_plus.Profile.{
  SshPeer, PeerEndpoint, local_root, ssh_endpoint, SyncProfile, new_ssh_peer, ssh_peer_error,
}
use sync_plus.Storage.Checks.{
  StorageError, validate_profile, is_bad_name, map_error, invalid_profile,
}
use sync_plus.Storage.Columns.{unsigned, transpose, i64_or_max}
use sync_plus.Storage.Encoding.{
  from_endpoint, row_of, decode_ssh_peer, decode_peer, decode_metadata, decode_options,
  into_profile,
}
use sync_plus.Storage.Columns.Decoded.{
  decode_profile_bool-encode, decode_sync_mode-encode, decode_source-encode, decode_partial-encode,
  decode_deletion-encode, unsigned-pos, unsigned-i64_or_max, IsReference,
  decode_authentication-encode,
}

module _ (is_utf8 : Text → Bool) where
  -- What holds of every peer that the program can make: SSH peers pass their checks, their port is
  -- a `u16`, and their remote path is text.
  abbrev pub IsMade : PeerEndpoint → Type 0
  IsMade (local_root path) = Unit
  IsMade (ssh_endpoint ssh) =
      (ssh_peer_error ssh ≡ none)
      × (ssh.port < 2 ^ 16)
      × IsReference ssh.authentication
      × (is_utf8 ssh.remote_path ≡ true)

  new_ssh_peer_ok : (ssh : SshPeer) → ssh_peer_error ssh ≡ none → new_ssh_peer ssh ≡ ok ssh
  unfolding new_ssh_peer
  new_ssh_peer_ok ssh valid = ground (arith, valid)

  decode_ssh_peer-from_endpoint :
      (name : Text) (ssh : SshPeer)
      → IsMade (ssh_endpoint ssh)
      → decode_ssh_peer is_utf8 (from_endpoint name (ssh_endpoint ssh)) ≡ ok ssh
  decode_ssh_peer-from_endpoint name ssh (valid, small, reference, text) =
      rw
        (
          unsigned-pos 16 ssh.port small,
          decode_authentication-encode ssh.authentication reference,
          text,
          new_ssh_peer_ok ssh valid,
        )
        refl

  decode_endpoint :
      (name : Text) (endpoint : PeerEndpoint)
      → IsMade endpoint
      → decode_peer is_utf8 (from_endpoint name endpoint)
        ≡ ok (record { name = name; endpoint = endpoint })
  unfolding decode_peer text_eq native.Mathlib.Decide.ℕ_discrete
  decode_endpoint name (local_root path) made = refl
  decode_endpoint name (ssh_endpoint ssh) made =
      rw (decode_ssh_peer-from_endpoint name ssh made) refl

decode_metadata-row_of :
    (profile : SyncProfile) → decode_metadata (row_of profile) ≡ ok profile.options.metadata
unfolding row_of
decode_metadata-row_of profile =
    let m = profile.options.metadata in
    rw
      (
        decode_profile_bool-encode m.file_type,
        decode_profile_bool-encode m.executable_permissions,
        decode_profile_bool-encode m.symlink_targets,
        decode_profile_bool-encode m.timestamps,
        decode_profile_bool-encode m.specialist.ownership,
        decode_profile_bool-encode m.specialist.access_control_lists,
        decode_profile_bool-encode m.specialist.extended_attributes,
      )
      refl

-- The numbers of options that the checks accept.
record HasLimits (o : SyncOptions) : Type 0 where
  attempts : o.retry_policy.max_attempts ≤ 10
  delay : o.retry_policy.initial_delay ≤ 3_600_000_000_000
  bandwidth :
      transpose (unsigned 64) (Option.map i64_or_max o.bandwidth_limit_kib_per_second)
      ≡ ok o.bandwidth_limit_kib_per_second

bandwidth_restored :
    (limit : Option ℕ)
    → bandwidth_error limit ≡ none
    → transpose (unsigned 64) (Option.map i64_or_max limit) ≡ ok limit
bandwidth_restored none h = refl
bandwidth_restored (some limit) h = rw (unsigned-i64_or_max limit (ground (arith, h))) refl

options_error-limits : (o : SyncOptions) → options_error o ≡ none → HasLimits o
unfolding options_error
options_error-limits o h = record {
  attempts = ground (arith, h);
  delay = ground (arith, h);
  bandwidth = bandwidth_restored o.bandwidth_limit_kib_per_second (ground (arith, h));
}

millis_restored :
    (delay millis : ℕ)
    → delay ≡ millis * 1_000_000
    → delay ≤ 3_600_000_000_000
    → unsigned 64 (i64_or_max (delay / 1_000_000)) ≡ ok millis
millis_restored delay millis whole small =
    let same : delay / 1_000_000 ≡ millis = omega (arith, whole) in
    subst (λ n. unsigned 64 (i64_or_max n) ≡ ok millis) (sym same)
      (unsigned-i64_or_max millis (omega (arith, whole, small)))

-- The options, if the delay is of whole milliseconds.
decode_options-row_of :
    (profile : SyncProfile) (millis : ℕ)
    → HasLimits profile.options
    → profile.options.retry_policy.initial_delay ≡ millis * 1_000_000
    → decode_options (row_of profile) ≡ ok profile.options
unfolding row_of
decode_options-row_of profile millis limits whole =
    let o = profile.options in
    rw
      (
        decode_profile_bool-encode o.safe_delete,
        decode_profile_bool-encode o.destination_cleanup,
        decode_deletion-encode o.deletion_method,
        decode_metadata-row_of profile,
        decode_partial-encode o.partial_transfer_policy,
        unsigned-pos 8 o.retry_policy.max_attempts (omega (arith, limits.attempts)),
        millis_restored o.retry_policy.initial_delay millis whole limits.delay,
        limits.bandwidth,
      )
      (ap
        (λ delay. ok (record o {
          retry_policy = record {
            max_attempts = o.retry_policy.max_attempts;
            initial_delay = delay;
          };
        }))
        (sym whole))

map_error-ok :
    {E F A : Type 0} (f : E → F) {r : Result E A} {a : A} → map_error f r ≡ ok a → r ≡ ok a
map_error-ok f {r} h = ground arith

module _ (is_dir : Text → Bool) where
  -- A profile that is accepted keeps the limits.
  validate_profile-limits :
      (profile : SyncProfile) → validate_profile is_dir profile ≡ ok tt → HasLimits profile.options
  unfolding validate_profile
  validate_profile-limits profile h = options_error-limits profile.options (accepted profile h)
    where
      accepted :
          (profile : SyncProfile)
          → validate_profile is_dir profile ≡ ok tt
          → options_error profile.options ≡ none
      accepted profile h = elim (Bool-cases (is_bad_name profile.name)) [
        | inl e ↦ absurd (ground (arith, h, e))
        | inr e ↦
            elim (Bool-cases (is_bad_name profile.peer_a.name || is_bad_name profile.peer_b.name)) [
              | inl e1 ↦ absurd (ground (arith, h, e, e1))
              | inr e1 ↦
                  let checked : ◌≡◌ {A = Result StorageError (Unit {0})}
                      (map_error invalid_profile (from_profile is_dir profile) >> ok tt) (ok tt) =
                    ground (arith, h, e, e1) in
                  let (spec, e2, _) =
                    bind_ok (map_error invalid_profile (from_profile is_dir profile)) _ checked in
                  (from_profile-IsAccepted is_dir profile (map_error-ok invalid_profile e2)).options
            ]
      ]

  -- What is stored of a profile in its row and its exclusions gives the same profile back, if it is
  -- one that the store accepts, its peers are as the program makes them, and its retry delay is a
  -- whole number of milliseconds.
  pub into_profile-row_of :
      (is_utf8 : Text → Bool) (profile : SyncProfile) (millis : ℕ)
      → validate_profile is_dir profile ≡ ok tt
      → IsMade is_utf8 profile.peer_a.endpoint
      → IsMade is_utf8 profile.peer_b.endpoint
      → profile.options.retry_policy.initial_delay ≡ millis * 1_000_000
      → into_profile is_dir is_utf8 (row_of profile) profile.exclusions ≡ ok profile
  unfolding into_profile row_of
  into_profile-row_of is_utf8 profile millis valid made_a made_b whole =
      rw
        (
          decode_endpoint is_utf8 profile.peer_a.name profile.peer_a.endpoint made_a,
          decode_endpoint is_utf8 profile.peer_b.name profile.peer_b.endpoint made_b,
          decode_sync_mode-encode profile.mode,
          decode_source-encode profile.source,
          decode_options-row_of profile millis (validate_profile-limits profile valid) whole,
          valid,
        )
        refl
