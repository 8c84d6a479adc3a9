-- ===== src/Process/Invocation/Guarded.antt =====
-- What rsync takes as options and as operands of a command of process.rs: its arguments up to the
-- first `--`, and those after it.
use sync_plus.Base.{
  ℕ, false, Option, none, some, List, [], ◌∷◌, ◌++◌, map, Text, ◌==◌, contains, if◌then◌else◌, All,
  text_eq, nat_eq, ◌≡◌, refl, arith,
}
use sync_plus.Base.Strings.{codes}
use native.Mathlib.Decide.{ℕ_discrete}
use sync_plus.Base.Decimal.{decimal}
use sync_plus.Model.{MetadataRequirements}
use sync_plus.Process.{
  RsyncFlag, owner, group, acls, xattrs, end_of_options, flag_text, ProcessArgument, flag,
  exclusion_pattern, SshTransport,
}
use sync_plus.Process.Specification.{
  bandwidth_arguments, transport_arguments, specialist_rsync_flags,
}
use sync_plus.Process.Invocation.{to_os_string}

-- The arguments before the first `--`.
abbrev pub options_of : List Text → List Text
options_of [] = []
options_of (t ∷ ts) = let rest = options_of ts in if t == codes "--" then [] else t ∷ rest

-- The arguments after the first `--`.
abbrev pub operands_of : List Text → List Text
operands_of [] = []
operands_of (t ∷ ts) = let rest = operands_of ts in if t == codes "--" then ts else rest

third : Text → ℕ
third (a ∷ b ∷ c ∷ ts) = c
third _ = 0

-- A long option: two dashes and a name that starts with the byte.
abbrev pub IsLong : ℕ → Text → Type 0
IsLong c t = (rest : Text) × (t ≡ b'-' ∷ b'-' ∷ c ∷ rest)

long-ne : (c : ℕ) (t : Text) → IsLong c t → (t == codes "--") ≡ false
long-ne c t (rest, e) = ground (arith, e)

delete-ne : (c : ℕ) (t : Text) → IsLong c t → (c == b'd') ≡ false → (t == codes "--delete") ≡ false
unfolding nat_eq
delete-ne c t (rest, e) h = ground (arith, e)

-- What is shown of an argument that stands among the options, and is not `--delete`.
pub IsHarmless : ProcessArgument → Type 0
IsHarmless a = (c : ℕ) × IsLong c (to_os_string a) × ((c == b'd') ≡ false)

pub options_of-append :
    (arguments rest : List ProcessArgument)
    → All (λ a. (c : ℕ) × IsLong c (to_os_string a)) arguments
    → options_of (map to_os_string (arguments ++ (flag end_of_options ∷ rest)))
      ≡ map to_os_string arguments
unfolding to_os_string text_eq native.Mathlib.Decide.ℕ_discrete
options_of-append [] rest h = refl
options_of-append (a ∷ arguments) rest h =
    ground (arith, long-ne h.0.0 (to_os_string a) h.0.1, options_of-append arguments rest h.1)

pub operands_of-append :
    (arguments rest : List ProcessArgument)
    → All (λ a. (c : ℕ) × IsLong c (to_os_string a)) arguments
    → operands_of (map to_os_string (arguments ++ (flag end_of_options ∷ rest)))
      ≡ map to_os_string rest
unfolding to_os_string text_eq native.Mathlib.Decide.ℕ_discrete
operands_of-append [] rest h = refl
operands_of-append (a ∷ arguments) rest h =
    ground (arith, long-ne h.0.0 (to_os_string a) h.0.1, operands_of-append arguments rest h.1)

pub contains-harmless :
    (arguments : List ProcessArgument)
    → All IsHarmless arguments
    → contains (map to_os_string arguments) (codes "--delete") ≡ false
unfolding IsHarmless
contains-harmless [] h = refl
contains-harmless (a ∷ arguments) h =
    ground (arith, delete-ne h.0.0 (to_os_string a) h.0.1 h.0.2, contains-harmless arguments h.1)

pub harmless-IsLong :
    (arguments : List ProcessArgument)
    → All IsHarmless arguments
    → All (λ a. (c : ℕ) × IsLong c (to_os_string a)) arguments
unfolding IsHarmless
harmless-IsLong [] h = tt
harmless-IsLong (a ∷ arguments) h = ((h.0.0, h.0.1), harmless-IsLong arguments h.1)

-- The arguments that a command has among its options.
pub exclusion-IsHarmless : (pattern : Text) → IsHarmless (exclusion_pattern pattern)
unfolding IsHarmless to_os_string nat_eq ℕ_discrete
exclusion-IsHarmless pattern = (b'e', (codes "xclude=" ++ pattern, refl), refl)

pub bandwidth-IsHarmless : (limit : Option ℕ) → All IsHarmless (bandwidth_arguments limit)
unfolding IsHarmless to_os_string nat_eq ℕ_discrete
bandwidth-IsHarmless none = tt
bandwidth-IsHarmless (some limit) = ((b'b', (codes "wlimit=" ++ decimal limit, refl), refl), tt)

pub transport-IsHarmless : (t : Option SshTransport) → All IsHarmless (transport_arguments t)
unfolding IsHarmless to_os_string nat_eq ℕ_discrete
transport-IsHarmless none = tt
transport-IsHarmless (some t) = ((b'r', (_, refl), refl), tt)

pub flag-IsHarmless :
    (f : RsyncFlag) (c : ℕ) (rest : Text)
    → flag_text f ≡ b'-' ∷ b'-' ∷ c ∷ rest
    → (c == b'd') ≡ false
    → IsHarmless (flag f)
unfolding IsHarmless to_os_string
flag-IsHarmless f c rest e h = (c, (rest, e), h)

pub specialist-IsHarmless :
    (m : MetadataRequirements) → All IsHarmless (map flag (specialist_rsync_flags m))
unfolding nat_eq ℕ_discrete
specialist-IsHarmless m = ground (
  arith,
  flag-IsHarmless owner b'o' (codes "wner") refl refl,
  flag-IsHarmless group b'g' (codes "roup") refl refl,
  flag-IsHarmless acls b'a' (codes "cls") refl refl,
  flag-IsHarmless xattrs b'x' (codes "attrs") refl refl,
)
