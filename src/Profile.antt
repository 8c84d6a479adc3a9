-- ===== src/Profile.antt =====
-- Peers and profiles of crates/syncplus-core/src/model.rs, with the checks of the constructors. A
-- path is the bytes it is written in, as a process argument takes it.
pub mod Visible
use native.Mathlib.Decide.{ℕ_discrete}
use sync_plus.Base.{
  ℕ, Bool, true, false, ◌&&◌, ◌||◌, not, Option, none, some, List, [], ◌∷◌, ◌++◌, Text, Eq, ◌==◌,
  ◌/=◌, if◌then◌else◌, all, any, contains, is_empty, length, ltb, is_none, Result, ok, err, nat_eq,
  text_eq, option_eq,
}
use sync_plus.Base.Strings.{is_ascii_alphanumeric, contains_nul, codes}
use sync_plus.Path.{path_eq}
use sync_plus.Path.Parse.{parse_path, join, file_name}
use sync_plus.Model.{
  SyncMode, one_way, mirror, PeerSide, peer_a, peer_b, SyncOptions, side_eq, mode_eq, options_eq,
}

pub record SavedSecretReference : Type 0 where
  pub id : Text

pub data SecretReferenceError : Type 0 where
  empty too_long invalid : SecretReferenceError

-- The characters of an identifier: letters, digits, and `.`, `_`, `-`.
abbrev pub is_identifier_byte : ℕ → Bool
is_identifier_byte b = is_ascii_alphanumeric b || (b == b'.' || b == b'_' || b == b'-')

-- `SavedSecretReference::new`.
unfoldable pub new_secret_reference : Text → Result SecretReferenceError SavedSecretReference
new_secret_reference id =
    if is_empty id
    then err empty
    else if ltb 128 (length id)
    then err too_long
    else if not (all is_identifier_byte id)
    then err invalid
    else ok (record { id = id })

pub data SshAuthentication : Type 0 where
  key agent interactive_password : SshAuthentication
  saved_password : SavedSecretReference → SshAuthentication

pub record SshPeer : Type 0 where
  pub server : Text
  pub username : Text
  pub port : ℕ
  pub identity : Option Text
  pub authentication : SshAuthentication
  pub remote_path : Text

pub data SshPeerError : Type 0 where
  empty_server invalid_server empty_username invalid_username invalid_port : SshPeerError
  empty_identity nul_in_identity missing_identity_for_key : SshPeerError
  empty_remote_path nul_in_remote_path : SshPeerError

abbrev last_is : ℕ → Text → Bool
last_is c [] = false
last_is c (b ∷ []) = b == c
last_is c (b ∷ d ∷ bs) = last_is c (d ∷ bs)

abbrev without_last : Text → Text
without_last [] = []
without_last (b ∷ []) = []
without_last (b ∷ d ∷ bs) = b ∷ without_last (d ∷ bs)

-- The characters of an address in brackets.
abbrev is_address_byte : ℕ → Bool
is_address_byte b = is_ascii_alphanumeric b || contains (codes ":%.-") b

abbrev is_server_byte : ℕ → Bool
is_server_byte b = is_ascii_alphanumeric b || contains (codes ".-") b

-- A server that starts with `[` or ends with `]` must have both, around an address.
abbrev is_valid_ssh_server : Text → Bool
is_valid_ssh_server [] = true
is_valid_ssh_server (b ∷ bs) =
    if b == b'['
    then last_is b']' bs
      && not (is_empty (without_last bs))
      && all is_address_byte (without_last bs)
    else not (last_is b']' (b ∷ bs)) && all is_server_byte (b ∷ bs)

abbrev is_valid_ssh_username : Text → Bool
is_valid_ssh_username = all is_identifier_byte

abbrev identity_error : Option Text → Option SshPeerError
identity_error none = none
identity_error (some path) =
    if is_empty path
    then some empty_identity
    else if contains_nul path
    then some nul_in_identity
    else none

abbrev needs_identity : SshAuthentication → Option Text → Bool
needs_identity key identity = is_none identity
needs_identity _ identity = false

-- The checks of `SshPeer::new`, in their order.
unfoldable pub ssh_peer_error : SshPeer → Option SshPeerError
ssh_peer_error peer =
    if is_empty peer.server
    then some empty_server
    else if not (is_valid_ssh_server peer.server)
    then some invalid_server
    else if is_empty peer.username
    then some empty_username
    else if not (is_valid_ssh_username peer.username)
    then some invalid_username
    else if peer.port == 0
    then some invalid_port
    else elim (identity_error peer.identity) [
      | some e ↦ some e
      | none ↦
          if needs_identity peer.authentication peer.identity
          then some missing_identity_for_key
          else if is_empty peer.remote_path
          then some empty_remote_path
          else if contains_nul peer.remote_path
          then some nul_in_remote_path
          else none
    ]

-- `SshPeer::new`, on the fields of the peer to be.
unfoldable pub new_ssh_peer : SshPeer → Result SshPeerError SshPeer
unfolding ssh_peer_error
new_ssh_peer peer = elim (ssh_peer_error peer) [ none ↦ ok peer | some e ↦ err e ]

pub data PeerEndpoint : Type 0 where
  local_root : Text → PeerEndpoint
  ssh_endpoint : SshPeer → PeerEndpoint

pub record Peer : Type 0 where
  pub name : Text
  pub endpoint : PeerEndpoint

abbrev pub root : Peer → Text
root peer = elim peer.endpoint [ local_root path ↦ path | ssh_endpoint s ↦ s.remote_path ]

abbrev pub ssh_peer : Peer → Option SshPeer
ssh_peer peer = elim peer.endpoint [ local_root _ ↦ none | ssh_endpoint s ↦ some s ]

abbrev pub is_ssh : Peer → Bool
is_ssh peer = elim peer.endpoint [ local_root _ ↦ false | ssh_endpoint _ ↦ true ]

pub record AuthorizationSnapshot : Type 0 where
  pub allow_unattended_destructive : Bool
  pub allow_unattended_permanent_removal : Bool

-- `AuthorizationSnapshot::default`.
abbrev pub no_authorizations : AuthorizationSnapshot
no_authorizations = record {
  allow_unattended_destructive = false;
  allow_unattended_permanent_removal = false;
}

pub record SyncProfile : Type 0 where
  pub name : Text
  pub peer_a : Peer
  pub peer_b : Peer
  pub mode : SyncMode
  pub source : PeerSide
  pub options : SyncOptions
  pub exclusions : List Text

abbrev pub peer_on : SyncProfile → PeerSide → Peer
peer_on profile peer_a = profile.peer_a
peer_on profile peer_b = profile.peer_b

abbrev pub selected_source : SyncProfile → Peer
selected_source profile = peer_on profile profile.source

abbrev pub selected_destination : SyncProfile → Peer
selected_destination profile = elim profile.source [
  | peer_a ↦ profile.peer_b
  | peer_b ↦ profile.peer_a
]

-- The destination is a parent folder, unless it already has the source folder's name.
abbrev nested_root : Text → Option Text → Text
nested_root destination none = destination
nested_root destination (some name) =
    if file_name destination == some name then destination else join destination name

abbrev pub effective_destination_root : SyncProfile → Text
effective_destination_root profile = elim profile.mode [
  | mirror ↦ root (selected_destination profile)
  | one_way ↦
      nested_root (root (selected_destination profile)) (file_name (root (selected_source profile)))
]

-- Paths are compared by their components.
abbrev same_path_text : Text → Text → Bool
same_path_text a b = parse_path a == parse_path b

abbrev same_identity : Option Text → Option Text → Bool
same_identity none none = true
same_identity (some a) (some b) = same_path_text a b
same_identity _ _ = false

SshAuthentication-discrete : Discrete SshAuthentication
SshAuthentication-discrete = hlevel ℕ_discrete

instance unfoldable pub authentication_eq : Eq SshAuthentication
unfolding SshAuthentication-discrete
authentication_eq = record { dec = SshAuthentication-discrete }

abbrev same_ssh_peer : SshPeer → SshPeer → Bool
same_ssh_peer s t =
    s.server == t.server
    && s.username == t.username
    && s.port == t.port
    && same_identity s.identity t.identity
    && s.authentication == t.authentication
    && same_path_text s.remote_path t.remote_path

abbrev same_location : PeerEndpoint → PeerEndpoint → Bool
same_location (local_root a) (local_root b) = same_path_text a b
same_location (ssh_endpoint s) (ssh_endpoint t) = same_ssh_peer s t
same_location _ _ = false

-- The derived `PartialEq` of `Peer`.
abbrev pub same_peer : Peer → Peer → Bool
same_peer a b = a.name == b.name && same_location a.endpoint b.endpoint
