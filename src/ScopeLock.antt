-- ===== src/ScopeLock.antt =====
-- The registry of crates/syncplus-core/src/scope_lock.rs: lexical normalisation of a peer's path,
-- overlap of scopes, and the state that active runs hold their scopes in. The mutex is held for the
-- whole of each operation, so an operation is one function on the state.
pub mod Normal
pub mod Registry
use native.Mathlib.Decide.{ℕ_discrete}
use sync_plus.Base.{
  Bool, true, false, ◌&&◌, ◌||◌, not, Option, none, some, List, [], ◌∷◌, ◌++◌, map, filter, find,
  if◌then◌else◌, ◌==◌, ◌/=◌, Eq, Text, Result, ok, err, ℕ, ◌+◌, ◌%◌, ◌^◌, max, nat_eq,
}
use sync_plus.Base.Order.{sort_by}
use sync_plus.Path.Parse.{parse_path}
use sync_plus.Profile.{PeerEndpoint, local_root, ssh_endpoint, Peer}
use sync_plus.Path.{
  Component, root_dir, cur_dir, parent_dir, normal, FilePath, component_eq, path_eq, path_ord,
}

-- Whether `PathBuf::file_name` answers: the last component is a name.
abbrev pub has_file_name : List Component → Bool
has_file_name [] = false
has_file_name (normal part ∷ []) = true
has_file_name (c ∷ []) = false
has_file_name (c ∷ d ∷ cs) = has_file_name (d ∷ cs)

abbrev pub pop : List Component → List Component
pop [] = []
pop (c ∷ []) = []
pop (c ∷ d ∷ cs) = c ∷ pop (d ∷ cs)

-- One round of the loop. Pushing the root replaces the path.
abbrev pub push_component : List Component → Component → List Component
push_component normalized root_dir = root_dir ∷ []
push_component normalized cur_dir = normalized
push_component normalized parent_dir =
    if has_file_name normalized then pop normalized else normalized
push_component normalized (normal part) = normalized ++ (normal part ∷ [])

abbrev pub push_components : List Component → List Component → List Component
push_components normalized [] = normalized
push_components normalized (c ∷ cs) = push_components (push_component normalized c) cs

abbrev pub normalize_remote_path : FilePath → FilePath
normalize_remote_path path = record { components = push_components [] path.components }

abbrev pub is_absolute : FilePath → Bool
is_absolute path = elim path.components [ [] ↦ false | c ∷ cs ↦ c == root_dir ]

-- The current directory is the process's; it may be unavailable.
abbrev pub absolute_path : Option FilePath → FilePath → FilePath
absolute_path none path = path
absolute_path (some directory) path =
    if is_absolute path
    then path
    else record { components = directory.components ++ path.components }

abbrev pub normalize_path : Option FilePath → FilePath → FilePath
normalize_path current_dir path = normalize_remote_path (absolute_path current_dir path)

pub data ScopeNamespace : Type 0 where
  local : ScopeNamespace
  ssh : Text → Text → ℕ → ScopeNamespace

pub record PeerScope : Type 0 where
  pub namespace : ScopeNamespace
  pub path : FilePath

ScopeNamespace-discrete : Discrete ScopeNamespace
ScopeNamespace-discrete = hlevel ℕ_discrete

PeerScope-discrete : Discrete PeerScope
unfolding ScopeNamespace-discrete
PeerScope-discrete = hlevel ℕ_discrete

instance unfoldable pub namespace_eq : Eq ScopeNamespace
unfolding ScopeNamespace-discrete
namespace_eq = record { dec = ScopeNamespace-discrete }

instance unfoldable pub scope_eq : Eq PeerScope
unfolding PeerScope-discrete
scope_eq = record { dec = PeerScope-discrete }

abbrev pub for_endpoint : Option FilePath → PeerEndpoint → PeerScope
for_endpoint current_dir (local_root path) = record {
  namespace = local;
  path = normalize_path current_dir (parse_path path);
}
for_endpoint current_dir (ssh_endpoint peer) = record {
  namespace = ssh peer.server peer.username peer.port;
  path = normalize_remote_path (parse_path peer.remote_path);
}

abbrev pub for_peer : Option FilePath → Peer → PeerScope
for_peer current_dir peer = for_endpoint current_dir peer.endpoint

-- `Peer::same_endpoint` of model.rs: the scopes are compared, not the names or the credentials.
unfoldable pub same_endpoint : Option FilePath → Peer → Peer → Bool
same_endpoint current_dir a b = for_peer current_dir a == for_peer current_dir b

abbrev pub is_prefix : List Component → List Component → Bool
is_prefix [] cs = true
is_prefix (b ∷ bs) [] = false
is_prefix (b ∷ bs) (c ∷ cs) = b == c && is_prefix bs cs

-- `Path::starts_with`.
abbrev pub starts_with : FilePath → FilePath → Bool
starts_with path base = is_prefix base.components path.components

abbrev pub overlaps : PeerScope → PeerScope → Bool
overlaps s t =
    s.namespace == t.namespace && (starts_with s.path t.path || starts_with t.path s.path)

pub record ScopeLockOwner : Type 0 where
  pub profile_name : Text
  pub run_id : ℕ

pub record HeldScope : Type 0 where
  pub token : ℕ
  pub scope : PeerScope
  pub owner : ScopeLockOwner

pub record LockState : Type 0 where
  pub next_token : ℕ
  pub held : List HeldScope

pub record ScopeLockConflict : Type 0 where
  pub requested : PeerScope
  pub held : PeerScope
  pub owner : ScopeLockOwner

pub data ScopeLockError : Type 0 where
  empty_scopes : ScopeLockError
  conflict : ScopeLockConflict → ScopeLockError

abbrev pub new_registry : LockState
new_registry = record { next_token = 0; held = [] }

-- `Vec::dedup`: of equal neighbours, the first stays.
abbrev dedup_from : PeerScope → List PeerScope → List PeerScope
dedup_from s [] = s ∷ []
dedup_from s (t ∷ ts) =
    let rest = dedup_from t ts in let same = dedup_from s ts in if s == t then same else s ∷ rest

abbrev pub dedup : List PeerScope → List PeerScope
dedup [] = []
dedup (s ∷ ss) = dedup_from s ss

abbrev pub held_conflict : List HeldScope → PeerScope → Option HeldScope
held_conflict held s = find (λ h. overlaps s h.scope) held

abbrev pub first_conflict : List HeldScope → List PeerScope → Option ScopeLockConflict
first_conflict held [] = none
first_conflict held (s ∷ ss) = elim (held_conflict held s) [
  | some h ↦ some (record { requested = s; held = h.scope; owner = h.owner })
  | none ↦ first_conflict held ss
]

-- `wrapping_add(1).max(1)` on 64 bits.
abbrev pub following_token : ℕ → ℕ
following_token token = max ((token + 1) % 2 ^ 64) 1

abbrev pub requested_scopes : List PeerScope → List PeerScope
requested_scopes scopes = dedup (sort_by (λ (s : PeerScope). s.path) scopes)

abbrev pub extended : LockState → ScopeLockOwner → List PeerScope → LockState
extended state owner requested =
    let token = following_token state.next_token in
    record {
      next_token = token;
      held = state.held ++ map (λ s. record { token = token; scope = s; owner = owner }) requested;
    }

-- The state after the call, and the token of the lease that it returns.
abbrev pub acquire_scopes :
    LockState → ScopeLockOwner → List PeerScope → LockState × Result ScopeLockError ℕ
acquire_scopes state owner [] = (state, err empty_scopes)
acquire_scopes state owner (s ∷ ss) = elim (first_conflict state.held (s ∷ ss)) [
  | some c ↦ (state, err (conflict c))
  | none ↦ (extended state owner (s ∷ ss), ok (following_token state.next_token))
]

unfoldable pub acquire :
    LockState → ScopeLockOwner → List PeerScope → LockState × Result ScopeLockError ℕ
acquire state owner scopes = acquire_scopes state owner (requested_scopes scopes)

-- What dropping a lease does.
unfoldable pub release : LockState → ℕ → LockState
release state token = record {
  next_token = state.next_token;
  held = filter (λ h. h.token /= token) state.held;
}
