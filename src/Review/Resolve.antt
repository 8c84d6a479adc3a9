-- ===== src/Review/Resolve.antt =====
-- `ConflictReview::resolve` (resolution.rs): the decisions on the rows of a review, and its plan.
pub mod Accepted
pub mod Complete
use sync_plus.Base.{
  Bool, true, false, ◌&&◌, not, Option, none, some, List, [], ◌∷◌, ◌++◌, map, filter, find, any,
  contains, if◌then◌else◌, ◌==◌, Result, ok, err, ◌>>=◌, ◌>>◌, require, is_empty, nat_eq,
}
use sync_plus.Base.Keyed.{find_key}
use sync_plus.Base.Order.{sort_by}
use sync_plus.Base.Tree.{set_insert, set_extend}
use sync_plus.Path.{FilePath, path_ord}
use sync_plus.Conflict.{
  ConflictKind, ConflictEntryKey, ConflictResolution, keep_peer_a, keep_peer_b, preserve_both,
  rename_preserve_for_review, defer, available_resolutions, resolution_eq,
}
use sync_plus.Conflict.Key.{key_eq, key_ord}
use sync_plus.Resolution.{ConflictDecision, ConflictResolutionAction, action_from}
use sync_plus.Review.{ConflictEntry, row_key}

pub data ConflictResolutionError : Type 0 where
  missing_decision unknown_conflict duplicate_decision : FilePath → ConflictResolutionError
  unavailable_resolution : FilePath → ConflictResolution → ConflictResolutionError
  final_confirmation_required : ConflictResolutionError

abbrev pub decision_key : ConflictDecision → ConflictEntryKey
decision_key decision = decision.entry_key

abbrev pub resolution_path : ConflictResolutionAction → FilePath
resolution_path action = action.relative_path

abbrev pub is_decidable : ConflictEntry → Bool
is_decidable entry = not (is_empty (available_resolutions entry.kind))

abbrev pub expected_keys : List ConflictEntry → List ConflictEntryKey
expected_keys entries = set_extend [] (map row_key (filter is_decidable entries))

-- The checks of a decision on a row of a kind.
abbrev pub choice_error :
    List ConflictEntryKey → ConflictDecision → ConflictKind → Option ConflictResolutionError
choice_error seen decision kind =
    if not (contains (available_resolutions kind) decision.resolution)
    then some (unavailable_resolution decision.entry_key.relative_path decision.resolution)
    else if contains seen decision.entry_key
    then some (duplicate_decision decision.entry_key.relative_path)
    else none

abbrev pub decision_error :
    List ConflictEntryKey → ConflictDecision → Option ConflictEntry → Option ConflictResolutionError
decision_error seen decision none = some (unknown_conflict decision.entry_key.relative_path)
decision_error seen decision (some entry) = choice_error seen decision entry.kind

module _ (entries : List ConflictEntry) where
  -- The loop over the decisions: the keys it has seen, and the actions.
  unfoldable pub decisions_loop :
      List ConflictEntryKey
      → List ConflictResolutionAction
      → List ConflictDecision
      → Result ConflictResolutionError (List ConflictEntryKey × List ConflictResolutionAction)
  decisions_loop seen actions [] = ok (seen, actions)
  decisions_loop seen actions (decision ∷ decisions) = do
    require (decision_error seen decision (find_key row_key decision.entry_key entries))
    decisions_loop (set_insert decision.entry_key seen) (actions ++ (action_from decision ∷ []))
        decisions

  -- `expected.difference(&seen).next()`.
  abbrev pub first_missing : List ConflictEntryKey → Option ConflictEntryKey
  first_missing seen = find (λ key. not (contains seen key)) (expected_keys entries)

  abbrev pub plan_of :
      List ConflictResolutionAction
      → Option ConflictEntryKey
      → Result ConflictResolutionError (List ConflictResolutionAction)
  plan_of actions (some key) = err (missing_decision key.relative_path)
  plan_of actions none = ok (sort_by resolution_path actions)

  -- The actions of the plan.
  unfoldable pub resolve_conflicts :
      List ConflictDecision → Result ConflictResolutionError (List ConflictResolutionAction)
  unfolding decisions_loop set_extend sort_by set_insert
  resolve_conflicts decisions = do
    (seen, actions) ← decisions_loop [] [] decisions
    plan_of actions (first_missing seen)

-- `ConflictResolutionPlan::confirm`: the same actions behind the confirmation.
abbrev pub confirm_resolutions :
    List ConflictResolutionAction
    → Bool
    → Result ConflictResolutionError (List ConflictResolutionAction)
confirm_resolutions actions final_confirmation =
    if not final_confirmation then err final_confirmation_required else ok actions

abbrev keeps_open : ConflictResolution → Bool
keeps_open keep_peer_a = false
keeps_open keep_peer_b = false
keeps_open _ = true

-- `ConfirmedConflictResolutionPlan::requires_review`.
abbrev pub resolutions_require_review : List ConflictResolutionAction → Bool
resolutions_require_review =
    any (λ (action : ConflictResolutionAction). keeps_open action.resolution)
