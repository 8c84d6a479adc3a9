-- ===== src/Examples/Runs.antt =====
-- Runs of the state machine.
use sync_plus.Base.{◌≡◌, refl, false, List, [], ◌∷◌, ℕ, ok, err, ◌↔◌}
use sync_plus.Lifecycle.{
  SyncRun, RunEvent, new, transition, next_state, is_terminal, active, executing, terminal,
  completed, begin_precheck, precheck_passed, analysis_completed, plan_reviewed,
  execution_confirmed, cancel,
}
use sync_plus.Lifecycle.Trace.{follow, IsHistory, follow-IsHistory, transition_iff}

abbrev confirmed_events : List RunEvent
confirmed_events =
    execution_confirmed ∷ plan_reviewed ∷ analysis_completed ∷ precheck_passed ∷ begin_precheck ∷ []

abbrev executing_run : SyncRun ℕ
executing_run = record { id = 4; snapshot = 9; state = active executing }

reached : follow (new 4 9) confirmed_events ≡ ok executing_run
unfolding next_state
reached = refl

follow-IsHistory_example :
    (executing_run.id ≡ 4)
    × (executing_run.snapshot ≡ 9)
    × IsHistory (active executing) confirmed_events
follow-IsHistory_example = follow-IsHistory 4 9 confirmed_events executing_run reached

abbrev ended_run : SyncRun ℕ
ended_run = record { id = 4; snapshot = 9; state = terminal completed }

transition_iff_example :
    ((e : RunEvent) × (run : SyncRun ℕ) × (transition executing_run e ≡ ok run))
    ↔ (is_terminal (active executing) ≡ false)
transition_iff_example = transition_iff executing_run

-- A run that has ended refuses to be cancelled.
refused : transition ended_run cancel ≡ err (record { state = terminal completed; event = cancel })
unfolding next_state
refused = refl
