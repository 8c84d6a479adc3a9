-- ===== src/Storage/Columns/Decoded.antt =====
-- Every column gives back the value that it was written for.
use mathlib.Core.Option
use sync_plus.Base.{
  ℕ, ◌^◌, ◌<◌, Bool, true, false, Option, none, some, ok, nat_eq, text_eq, ◌≡◌, refl, arith,
}
use sync_plus.Base.Int.{pos, int_eq}
use sync_plus.Model.{
  SyncMode, one_way, mirror, PeerSide, peer_a, peer_b, DeletionMethod, trash, permanent_removal,
  PartialTransferPolicy, cleanup, keep_partial_for_resume,
}
use sync_plus.Profile.{
  SshAuthentication, key, agent, interactive_password, saved_password, new_secret_reference,
}
use sync_plus.Storage.Columns.{
  encode_profile_bool, decode_profile_bool, encode_sync_mode, decode_sync_mode, encode_source,
  decode_source, encode_deletion_method, decode_deletion_method, encode_partial_transfer_policy,
  decode_partial_transfer_policy, encode_authentication, decode_authentication, unsigned, transpose,
  i64_or_max,
}

pub decode_profile_bool-encode : (b : Bool) → decode_profile_bool (encode_profile_bool b) ≡ ok b
unfolding decode_profile_bool int_eq native.Mathlib.Decide.ℕ_discrete
decode_profile_bool-encode true = refl
decode_profile_bool-encode false = refl

pub decode_sync_mode-encode : (m : SyncMode) → decode_sync_mode (encode_sync_mode m) ≡ ok m
unfolding decode_sync_mode text_eq native.Mathlib.Decide.ℕ_discrete
decode_sync_mode-encode one_way = refl
decode_sync_mode-encode mirror = refl

pub decode_source-encode : (s : PeerSide) → decode_source (encode_source s) ≡ ok s
unfolding decode_source text_eq native.Mathlib.Decide.ℕ_discrete
decode_source-encode peer_a = refl
decode_source-encode peer_b = refl

pub decode_partial-encode :
    (p : PartialTransferPolicy)
    → decode_partial_transfer_policy (encode_partial_transfer_policy p) ≡ ok p
unfolding decode_partial_transfer_policy text_eq native.Mathlib.Decide.ℕ_discrete
decode_partial-encode cleanup = refl
decode_partial-encode keep_partial_for_resume = refl

pub decode_deletion-encode :
    (m : Option DeletionMethod)
    → transpose decode_deletion_method (Option.map encode_deletion_method m) ≡ ok m
unfolding decode_deletion_method text_eq native.Mathlib.Decide.ℕ_discrete
decode_deletion-encode none = refl
decode_deletion-encode (some trash) = refl
decode_deletion-encode (some permanent_removal) = refl

pub unsigned-pos : (width n : ℕ) → n < 2 ^ width → unsigned width (pos n) ≡ ok n
unfolding unsigned
unsigned-pos width n small = ground (arith, small)

pub unsigned-i64_or_max : (n : ℕ) → n < 2 ^ 63 → unsigned 64 (i64_or_max n) ≡ ok n
unfolding unsigned
unsigned-i64_or_max n small = ground (arith, small)

-- A reference that its checks accept.
abbrev pub IsReference : SshAuthentication → Type 0
IsReference (saved_password r) = new_secret_reference r.id ≡ ok r
IsReference _ = Unit

pub decode_authentication-encode :
    (a : SshAuthentication)
    → IsReference a
    → decode_authentication (some (encode_authentication a)) ≡ ok a
unfolding decode_authentication text_eq native.Mathlib.Decide.ℕ_discrete nat_eq
decode_authentication-encode key valid = refl
decode_authentication-encode agent valid = refl
decode_authentication-encode interactive_password valid = refl
decode_authentication-encode (saved_password r) valid = rw valid refl
