-- ===== src/Process/Invocation/Options.antt =====
-- The options of the commands of process.rs: each is long, and which of them can be `--delete`.
use sync_plus.Base.{
  ℕ, Bool, true, false, ◌||◌, Option, none, some, List, [], ◌∷◌, ◌++◌, map, Text, contains,
  if◌then◌else◌, All, All-append, text_eq, nat_eq, ◌≡◌, refl, arith, ap, ◌∙◌,
}
use sync_plus.Base.Strings.{codes}
use mathlib.Core.List.{append_assoc}
use native.Mathlib.Decide.{ℕ_discrete}
use sync_plus.Model.{mode_eq, SyncOptions}
use sync_plus.Process.{
  ProcessArgument, flag, archive, itemize_changes, protect_args, destination_cleanup,
  exclusion_pattern, SshTransport,
}
use sync_plus.Process.Specification.{
  option_arguments, transport_arguments, bandwidth_arguments, specialist_rsync_flags,
  protect_arguments,
}
use sync_plus.Process.Invocation.{to_os_string}
use sync_plus.Process.Invocation.Guarded.{
  IsLong, IsHarmless, contains-harmless, harmless-IsLong, exclusion-IsHarmless,
  bandwidth-IsHarmless, transport-IsHarmless, flag-IsHarmless, specialist-IsHarmless,
}

exclusions-IsHarmless : (ps : List Text) → All IsHarmless (map exclusion_pattern ps)
exclusions-IsHarmless [] = tt
exclusions-IsHarmless (p ∷ ps) = (exclusion-IsHarmless p, exclusions-IsHarmless ps)

pub protection-IsHarmless : All IsHarmless (flag protect_args ∷ [])
unfolding nat_eq ℕ_discrete
protection-IsHarmless = (flag-IsHarmless protect_args b'p' (codes "rotect-args") refl refl, tt)

protect-IsHarmless : (t : Option SshTransport) → All IsHarmless (protect_arguments t)
protect-IsHarmless none = tt
protect-IsHarmless (some t) = protection-IsHarmless

leading-IsHarmless : All IsHarmless (flag archive ∷ flag itemize_changes ∷ [])
unfolding nat_eq ℕ_discrete
leading-IsHarmless = (
  flag-IsHarmless archive b'a' (codes "rchive") refl refl,
  (flag-IsHarmless itemize_changes b'i' (codes "temize-changes") refl refl, tt),
)

abbrev pub is_delete_among : List ProcessArgument → Bool
is_delete_among arguments = contains (map to_os_string arguments) (codes "--delete")

is_delete_among-append :
    (xs ys : List ProcessArgument)
    → is_delete_among (xs ++ ys) ≡ (is_delete_among xs || is_delete_among ys)
is_delete_among-append [] ys = refl
is_delete_among-append (x ∷ xs) ys = ground (arith, is_delete_among-append xs ys)

abbrev pub IsOption : ProcessArgument → Type 0
IsOption a = (c : ℕ) × IsLong c (to_os_string a)

abbrev cleanup_flag : Bool → List ProcessArgument
cleanup_flag b = if b then flag destination_cleanup ∷ [] else []

is_delete_among-cleanup_flag : (b : Bool) → is_delete_among (cleanup_flag b) ≡ b
unfolding text_eq to_os_string ℕ_discrete
is_delete_among-cleanup_flag true = refl
is_delete_among-cleanup_flag false = refl

cleanup_flag-IsLong : (b : Bool) → All IsOption (cleanup_flag b)
unfolding to_os_string
cleanup_flag-IsLong true = ((b'd', (codes "elete", refl)), tt)
cleanup_flag-IsLong false = tt

-- Harmless arguments around some others: only these can be `--delete`.
is_delete_among-between :
    (xs ys zs : List ProcessArgument)
    → All IsHarmless xs
    → All IsHarmless zs
    → is_delete_among (xs ++ ys ++ zs) ≡ is_delete_among ys
is_delete_among-between xs ys zs hx hz = ground (
  arith,
  is_delete_among-append (xs ++ ys) zs,
  is_delete_among-append xs ys,
  contains-harmless xs hx,
  contains-harmless zs hz,
)

-- The options that every command has, with the protection of the arguments where it is passed.
module _ (o : SyncOptions) (protection : List ProcessArgument) where
  abbrev leading : List ProcessArgument
  leading = flag archive ∷ flag itemize_changes ∷ []

  abbrev limited : List ProcessArgument
  limited = leading ++ bandwidth_arguments o.bandwidth_limit_kib_per_second

  abbrev specialist : List ProcessArgument
  specialist = map flag (specialist_rsync_flags o.metadata)

  abbrev pub common_options : List ProcessArgument
  common_options = limited ++ protection ++ specialist

  pub common_options-IsHarmless : All IsHarmless protection → All IsHarmless common_options
  common_options-IsHarmless h =
      All-append IsHarmless (limited ++ protection) specialist
        (All-append IsHarmless limited protection
          (All-append IsHarmless leading (bandwidth_arguments o.bandwidth_limit_kib_per_second)
            leading-IsHarmless (bandwidth-IsHarmless o.bandwidth_limit_kib_per_second))
          h)
        (specialist-IsHarmless o.metadata)

module _ (o : SyncOptions) (t : Option SshTransport) (exclusions : List Text) where
  abbrev before_cleanup : List ProcessArgument
  before_cleanup = common_options o (protect_arguments t)

  abbrev after_cleanup : List ProcessArgument
  after_cleanup = map exclusion_pattern exclusions ++ transport_arguments t

  before_cleanup-IsHarmless : All IsHarmless before_cleanup
  before_cleanup-IsHarmless =
      common_options-IsHarmless o (protect_arguments t) (protect-IsHarmless t)

  after_cleanup-IsHarmless : All IsHarmless after_cleanup
  after_cleanup-IsHarmless =
      All-append IsHarmless (map exclusion_pattern exclusions) _ (exclusions-IsHarmless exclusions)
        (transport-IsHarmless t)

  option_arguments-parts :
      option_arguments o t (map exclusion_pattern exclusions)
      ≡ before_cleanup ++ cleanup_flag o.destination_cleanup ++ after_cleanup
  unfolding option_arguments
  option_arguments-parts = simp (append_assoc)

  pub is_delete_among-option_arguments :
      is_delete_among (option_arguments o t (map exclusion_pattern exclusions))
      ≡ o.destination_cleanup
  is_delete_among-option_arguments =
      ap is_delete_among option_arguments-parts
      ∙ is_delete_among-between before_cleanup (cleanup_flag o.destination_cleanup) after_cleanup
          before_cleanup-IsHarmless after_cleanup-IsHarmless
      ∙ is_delete_among-cleanup_flag o.destination_cleanup

  pub option_arguments-IsLong :
      All IsOption (option_arguments o t (map exclusion_pattern exclusions))
  option_arguments-IsLong = rw option_arguments-parts (
      All-append IsOption (before_cleanup ++ cleanup_flag o.destination_cleanup) after_cleanup
        (All-append IsOption before_cleanup (cleanup_flag o.destination_cleanup)
          (harmless-IsLong before_cleanup before_cleanup-IsHarmless)
          (cleanup_flag-IsLong o.destination_cleanup))
        (harmless-IsLong after_cleanup after_cleanup-IsHarmless))
