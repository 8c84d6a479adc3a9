-- ===== src/Lifecycle.antt =====
-- The run state machine of crates/syncplus-core/src/model.rs: a run's state, its events, and the
-- transition of a run, which keeps everything but the state.
pub mod Trace
use sync_plus.Base.{Bool, true, false, Option, none, some, Result, ok, err, ℕ}

pub data ActiveRunState : Type 0 where
  idle_edit prechecking analyzing plan_review execution_confirmation executing : ActiveRunState
  completion_reconciliation review_resolution : ActiveRunState

pub data TerminalOutcome : Type 0 where
  completed completed_with_review_required failed cancelled interrupted blocked : TerminalOutcome
  recovery_review review_cleared : TerminalOutcome

pub data RunState : Type 0 where
  active : ActiveRunState → RunState
  pending_review : RunState
  terminal : TerminalOutcome → RunState

abbrev pub is_terminal : RunState → Bool
is_terminal (terminal o) = true
is_terminal _ = false

pub data RunEvent : Type 0 where
  begin_precheck precheck_passed analysis_completed plan_reviewed execution_confirmed : RunEvent
  execution_completed : RunEvent
  reconciliation_completed : Bool → RunEvent
  open_review begin_resolution_run clear_review : RunEvent
  block fail cancel interrupt require_recovery : RunEvent

-- The events that end a run from any state that is not terminal.
abbrev ending : RunEvent → Option TerminalOutcome
ending block = some blocked
ending fail = some failed
ending cancel = some cancelled
ending interrupt = some interrupted
ending require_recovery = some recovery_review
ending _ = none

abbrev ended : RunState → TerminalOutcome → Option RunState
ended (terminal _) o = none
ended _ o = some (terminal o)

abbrev advance : RunState → RunEvent → Option RunState
advance (active idle_edit) begin_precheck = some (active prechecking)
advance (active prechecking) precheck_passed = some (active analyzing)
advance (active analyzing) analysis_completed = some (active plan_review)
advance (active plan_review) plan_reviewed = some (active execution_confirmation)
advance (active execution_confirmation) execution_confirmed = some (active executing)
advance (active executing) execution_completed = some (active completion_reconciliation)
advance (active completion_reconciliation) (reconciliation_completed false) =
    some (terminal completed)
advance (active completion_reconciliation) (reconciliation_completed true) = some pending_review
advance pending_review open_review = some (active review_resolution)
advance (active review_resolution) begin_resolution_run = some (active analyzing)
advance (active review_resolution) clear_review = some (terminal review_cleared)
advance _ _ = none

unfoldable pub next_state : RunState → RunEvent → Option RunState
next_state s e = elim (ending e) [ some o ↦ ended s o | none ↦ advance s e ]

-- `CoreError::InvalidTransition`.
pub record InvalidTransition : Type 0 where
  pub state : RunState
  pub event : RunEvent

-- A run, over the type of its profile snapshots.
pub record SyncRun (Snapshot : Type 0) : Type 0 where
  pub id : ℕ
  pub snapshot : Snapshot
  pub state : RunState

module _ {Snapshot : Type 0} where
  -- `SyncRun::new`, once the profile's snapshot is taken, which may fail.
  abbrev pub new : ℕ → Snapshot → SyncRun Snapshot
  new id snapshot = record { id = id; snapshot = snapshot; state = active idle_edit }

  abbrev pub outcome : SyncRun Snapshot → Option TerminalOutcome
  outcome run = elim run.state [
    | pending_review ↦ some completed_with_review_required
    | terminal o ↦ some o
    | active _ ↦ none
  ]

  abbrev moved :
      SyncRun Snapshot → RunEvent → Option RunState → Result InvalidTransition (SyncRun Snapshot)
  moved run e none = err (record { state = run.state; event = e })
  moved run e (some s) = ok (record { id = run.id; snapshot = run.snapshot; state = s })

  abbrev pub transition : SyncRun Snapshot → RunEvent → Result InvalidTransition (SyncRun Snapshot)
  transition run e = moved run e (next_state run.state e)
