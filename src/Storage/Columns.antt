-- ===== src/Storage/Columns.antt =====
-- The columns of a profile's row one by one (storage.rs): what is written of a value, and what is
-- read of a column.
pub mod Decoded
use sync_plus.Base.{
  ℕ, ◌^◌, ◌*◌, ◌/◌, Bool, true, false, ◌||◌, not, Option, none, some, List, [], ◌∷◌, ◌++◌, Text,
  if◌then◌else◌, ◌==◌, ltb, is_some, Result, ok, err, panicked, ◌>>=◌, ◌>>◌, require, nat_eq,
  text_eq,
}
use mathlib.Core.Option
use sync_plus.Base.Int.{ℤ, pos, negsuc, int_eq}
use sync_plus.Base.Strings.{codes}
use sync_plus.Model.{
  SyncMode, one_way, mirror, PeerSide, peer_a, peer_b, DeletionMethod, trash, permanent_removal,
  PartialTransferPolicy, cleanup, keep_partial_for_resume, MetadataRequirements, SyncOptions,
}
use sync_plus.Profile.{
  SshAuthentication, key, agent, interactive_password, saved_password, SshPeer, PeerEndpoint,
  local_root, ssh_endpoint, Peer, SyncProfile, new_secret_reference, new_ssh_peer,
  SavedSecretReference,
}
use sync_plus.Schedule.{ok_or}
use sync_plus.Storage.Checks.{StorageError, corrupt_evidence, validate_profile, map_error}

abbrev pub corrupt_profile : StorageError
corrupt_profile = corrupt_evidence (codes "corrupt Sync Profile record")

-- `i64::from` of a `bool`.
abbrev pub encode_profile_bool : Bool → ℤ
encode_profile_bool true = pos 1
encode_profile_bool false = pos 0

unfoldable pub decode_profile_bool : ℤ → Result StorageError Bool
decode_profile_bool value =
    if value == pos 0 then ok false else if value == pos 1 then ok true else err corrupt_profile

abbrev pub encode_sync_mode : SyncMode → Text
encode_sync_mode one_way = codes "one_way"
encode_sync_mode mirror = codes "mirror"

unfoldable pub decode_sync_mode : Text → Result StorageError SyncMode
decode_sync_mode value =
    if value == codes "one_way"
    then ok one_way
    else if value == codes "mirror"
    then ok mirror
    else err corrupt_profile

abbrev pub encode_source : PeerSide → Text
encode_source peer_a = codes "peer_a"
encode_source peer_b = codes "peer_b"

unfoldable pub decode_source : Text → Result StorageError PeerSide
decode_source value =
    if value == codes "peer_a"
    then ok peer_a
    else if value == codes "peer_b"
    then ok peer_b
    else err corrupt_profile

abbrev pub encode_deletion_method : DeletionMethod → Text
encode_deletion_method trash = codes "trash"
encode_deletion_method permanent_removal = codes "permanent_removal"

unfoldable pub decode_deletion_method : Text → Result StorageError DeletionMethod
decode_deletion_method value =
    if value == codes "trash"
    then ok trash
    else if value == codes "permanent_removal"
    then ok permanent_removal
    else err corrupt_profile

abbrev pub encode_partial_transfer_policy : PartialTransferPolicy → Text
encode_partial_transfer_policy cleanup = codes "cleanup"
encode_partial_transfer_policy keep_partial_for_resume = codes "keep_partial_for_resume"

unfoldable pub decode_partial_transfer_policy : Text → Result StorageError PartialTransferPolicy
decode_partial_transfer_policy value =
    if value == codes "cleanup"
    then ok cleanup
    else if value == codes "keep_partial_for_resume"
    then ok keep_partial_for_resume
    else err corrupt_profile

abbrev pub encode_authentication : SshAuthentication → Text
encode_authentication key = codes "key"
encode_authentication agent = codes "agent"
encode_authentication interactive_password = codes "interactive_password"
encode_authentication (saved_password reference) = codes "saved_password:" ++ reference.id

-- `strip_prefix`.
abbrev pub strip_prefix : Text → Text → Option Text
strip_prefix [] value = some value
strip_prefix (p ∷ prefix) [] = none
strip_prefix (p ∷ prefix) (b ∷ value) =
    let rest = strip_prefix prefix value in if p == b then rest else none

abbrev pub decode_reference : Option Text → Result StorageError SshAuthentication
decode_reference none = err corrupt_profile
decode_reference (some id) =
    map_error (λ e. corrupt_profile) (new_secret_reference id) >>= λ r. ok (saved_password r)

unfoldable pub decode_authentication : Option Text → Result StorageError SshAuthentication
unfolding new_secret_reference
decode_authentication none = err corrupt_profile
decode_authentication (some value) =
    if value == codes "key"
    then ok key
    else if value == codes "agent"
    then ok agent
    else if value == codes "interactive_password"
    then ok interactive_password
    else decode_reference (strip_prefix (codes "saved_password:") value)

-- `try_from` of an `i64` into an unsigned type of a width.
unfoldable pub unsigned : ℕ → ℤ → Result StorageError ℕ
unsigned width (pos n) = if ltb n (2 ^ width) then ok n else err corrupt_profile
unsigned width (negsuc n) = err corrupt_profile

-- `transpose` of an optional result.
abbrev pub transpose :
    {A B : Type 0} → (A → Result StorageError B) → Option A → Result StorageError (Option B)
transpose decode none = ok none
transpose decode (some a) = decode a >>= λ b. ok (some b)

-- `i64::try_from`, or the largest `i64`.
abbrev pub i64_or_max : ℕ → ℤ
i64_or_max n = if ltb n (2 ^ 63) then pos n else pos 9_223_372_036_854_775_807
