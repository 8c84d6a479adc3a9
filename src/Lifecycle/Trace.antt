-- ===== src/Lifecycle/Trace.antt =====
-- The event sequences that a new run accepts, by the state that they lead to.
use sync_plus.Base.{
  ◌≡◌, refl, true, false, some, sym, subst, List, [], ◌∷◌, Result, ok, err, ◌>>=◌, ℕ, arith, inl,
  inr, Result-cases, ok-injective, Option-cases, ◌↔◌, Bool-cases, ◌∙◌, ap,
}
use mathlib.Core.Option.{some-injective}
use sync_plus.Lifecycle.{
  RunState, active, pending_review, terminal, idle_edit, prechecking, analyzing, plan_review,
  execution_confirmation, executing, completion_reconciliation, review_resolution, completed,
  completed_with_review_required, failed, cancelled, interrupted, blocked, recovery_review,
  review_cleared, RunEvent, begin_precheck, precheck_passed, analysis_completed, plan_reviewed,
  execution_confirmed, execution_completed, reconciliation_completed, open_review,
  begin_resolution_run, clear_review, block, fail, cancel, interrupt, require_recovery, next_state,
  ending, advance, TerminalOutcome, InvalidTransition, SyncRun, new, transition, is_terminal,
}

-- A run after a sequence of events, the latest event first; the first refused event ends it.
abbrev pub follow :
    {Snapshot : Type 0}
    → SyncRun Snapshot
    → List RunEvent
    → Result InvalidTransition (SyncRun Snapshot)
follow run [] = ok run
follow run (e ∷ es) = follow run es >>= λ r. transition r e

-- The histories, latest event first, of a run that analyses: a passed precheck, then any number of
-- rounds through plan review, confirmation, execution and reconciliation that asked for review.
pub data IsAnalyzing : List RunEvent → Type 0 where
  first : IsAnalyzing (precheck_passed ∷ begin_precheck ∷ [])
  again :
      {es : List RunEvent}
      → IsAnalyzing es
      → IsAnalyzing (
          begin_resolution_run
          ∷ open_review
          ∷ reconciliation_completed true
          ∷ execution_completed
          ∷ execution_confirmed
          ∷ plan_reviewed
          ∷ analysis_completed
          ∷ es)

-- The history ends in the given events, and what came before left the run analysing.
abbrev pub IsAfter : (List RunEvent → List RunEvent) → List RunEvent → Type 0
IsAfter last es = (before : List RunEvent) × IsAnalyzing before × (es ≡ last before)

abbrev pub confirmed : List RunEvent → List RunEvent
confirmed es = execution_confirmed ∷ plan_reviewed ∷ analysis_completed ∷ es

abbrev pub EndsIn : RunEvent → List RunEvent → Type 0
EndsIn e es = (before : List RunEvent) × (es ≡ e ∷ before)

abbrev pub IsHistory : RunState → List RunEvent → Type 0
IsHistory (active idle_edit) es = es ≡ []
IsHistory (active prechecking) es = es ≡ begin_precheck ∷ []
IsHistory (active analyzing) es = IsAnalyzing es
IsHistory (active plan_review) es = IsAfter (λ b. analysis_completed ∷ b) es
IsHistory (active execution_confirmation) es =
    IsAfter (λ b. plan_reviewed ∷ analysis_completed ∷ b) es
IsHistory (active executing) es = IsAfter confirmed es
IsHistory (active completion_reconciliation) es =
    IsAfter (λ b. execution_completed ∷ confirmed b) es
IsHistory pending_review es =
    IsAfter (λ b. reconciliation_completed true ∷ execution_completed ∷ confirmed b) es
IsHistory (active review_resolution) es =
    IsAfter (λ b. open_review ∷ reconciliation_completed true ∷ execution_completed ∷ confirmed b)
      es
IsHistory (terminal completed) es =
    IsAfter (λ b. reconciliation_completed false ∷ execution_completed ∷ confirmed b) es
IsHistory (terminal review_cleared) es =
    IsAfter
      (λ b.
        clear_review
        ∷ open_review
        ∷ reconciliation_completed true
        ∷ execution_completed
        ∷ confirmed b)
      es
IsHistory (terminal completed_with_review_required) es = ⊥
IsHistory (terminal failed) es = EndsIn fail es
IsHistory (terminal cancelled) es = EndsIn cancel es
IsHistory (terminal interrupted) es = EndsIn interrupt es
IsHistory (terminal blocked) es = EndsIn block es
IsHistory (terminal recovery_review) es = EndsIn require_recovery es

ending-IsHistory :
    (e : RunEvent) (o : TerminalOutcome) (es : List RunEvent)
    → ending e ≡ some o
    → IsHistory (terminal o) (e ∷ es)
ending-IsHistory e o es h = ground arith

advance-IsHistory :
    (s : RunState) (e : RunEvent) (t : RunState) (es : List RunEvent)
    → IsHistory s es
    → advance s e ≡ some t
    → IsHistory t (e ∷ es)
advance-IsHistory (active idle_edit) e t es k h = ground arith
advance-IsHistory (active prechecking) precheck_passed t es k h =
    subst (λ u. IsHistory u (precheck_passed ∷ es)) (some-injective _ _ h)
      (subst (λ fs. IsAnalyzing (precheck_passed ∷ fs)) (sym k) first)
advance-IsHistory (active analyzing) analysis_completed t es k h =
    subst (λ u. IsHistory u (analysis_completed ∷ es)) (some-injective _ _ h) (es, k, refl)
advance-IsHistory (active review_resolution) begin_resolution_run t es (before, k, at) h =
    subst (λ u. IsHistory u (begin_resolution_run ∷ es)) (some-injective _ _ h)
      (subst (λ fs. IsAnalyzing (begin_resolution_run ∷ fs)) (sym at) (again k))
advance-IsHistory (active plan_review) e t es (before, k, at) h = ground arith
advance-IsHistory (active execution_confirmation) e t es (before, k, at) h = ground arith
advance-IsHistory (active executing) e t es (before, k, at) h = ground arith
advance-IsHistory (active completion_reconciliation) e t es (before, k, at) h = ground arith
advance-IsHistory pending_review e t es (before, k, at) h = ground arith
advance-IsHistory (active review_resolution) clear_review t es (before, k, at) h = ground arith
advance-IsHistory s e t es k h = ground arith

next_state-IsHistory :
    (s : RunState) (e : RunEvent) (t : RunState) (es : List RunEvent)
    → IsHistory s es
    → next_state s e ≡ some t
    → IsHistory t (e ∷ es)
unfolding next_state
next_state-IsHistory s e t es k h = elim (Option-cases (ending e)) [
  | inl o ↦ advance-IsHistory s e t es k (ground (arith, h, o))
  | inr (o, at) ↦
      let is : terminal o ≡ t = ground (arith, h, at) in
      subst (λ u. IsHistory u (e ∷ es)) is (ending-IsHistory e o es at)
]

module _ {Snapshot : Type 0} (id : ℕ) (snapshot : Snapshot) where
  transition-IsHistory :
      (r : SyncRun Snapshot) (e : RunEvent) (run : SyncRun Snapshot) (es : List RunEvent)
      → IsHistory r.state es
      → transition r e ≡ ok run
      → (run.id ≡ r.id) × (run.snapshot ≡ r.snapshot) × IsHistory run.state (e ∷ es)
  transition-IsHistory r e run es k h = elim (Option-cases (next_state r.state e)) [
    | inl none' ↦ absurd (ground (arith, h, none'))
    | inr (t, at) ↦
        let (at_id, at_snapshot, at_state) : (run.id ≡ r.id)
            × (run.snapshot ≡ r.snapshot)
            × (t ≡ run.state) =
          ground (arith, h, at) in
        (
          at_id,
          at_snapshot,
          subst (λ u. IsHistory u (e ∷ es)) at_state (next_state-IsHistory r.state e t es k at),
        )
  ]

  -- Whatever sequence of events a new run has accepted, it keeps its id and its snapshot, and its
  -- state says which events these were. It is executing only right after a completed analysis, a
  -- reviewed plan and a confirmation, in that order with nothing between, on top of a precheck that
  -- passed. It completed only when its reconciliation then asked for no review, and a review is
  -- open or cleared only after one that did. The state `completed_with_review_required` is never
  -- reached, and an ended run's last event is the one that ended it.
  pub follow-IsHistory :
      (es : List RunEvent) (run : SyncRun Snapshot)
      → follow (new id snapshot) es ≡ ok run
      → (run.id ≡ id) × (run.snapshot ≡ snapshot) × IsHistory run.state es
  follow-IsHistory [] run h =
      let is : new id snapshot ≡ run = ok-injective h in
      (
        ap (λ r. r.id) (sym is),
        ap (λ r. r.snapshot) (sym is),
        subst (λ (r : SyncRun Snapshot). IsHistory r.state []) is refl,
      )
  follow-IsHistory (e ∷ es) run h = elim (Result-cases (follow (new id snapshot) es)) [
    | inl (r, at) ↦
        let (at_id, at_snapshot, k) = follow-IsHistory es r at in
        let (to_id, to_snapshot, k') = transition-IsHistory r e run es k (ground (arith, h, at)) in
        (to_id ∙ at_id, to_snapshot ∙ at_snapshot, k')
    | inr (inl (x, at)) ↦ absurd (ground (arith, h, at))
    | inr (inr at) ↦ absurd (ground (arith, h, at))
  ]

module _ {Snapshot : Type 0} where
  transition_terminal :
      (r : SyncRun Snapshot) (e : RunEvent)
      → is_terminal r.state ≡ true
      → transition r e ≡ err (record { state = r.state; event = e })
  unfolding next_state
  transition_terminal r e h = ground arith

  cancelled_run : SyncRun Snapshot → SyncRun Snapshot
  cancelled_run r = record { id = r.id; snapshot = r.snapshot; state = terminal cancelled }

  transition-cancel :
      (r : SyncRun Snapshot)
      → is_terminal r.state ≡ false
      → transition r cancel ≡ ok (cancelled_run r)
  unfolding next_state cancelled_run
  transition-cancel r h = ground arith

  -- A run accepts some event exactly as long as it has not ended: an ended run refuses every event,
  -- and no other state is a dead end.
  pub transition_iff :
      (r : SyncRun Snapshot)
      → ((e : RunEvent) × (run : SyncRun Snapshot) × (transition r e ≡ ok run))
        ↔ (is_terminal r.state ≡ false)
  transition_iff r = (
    λ (e, run, h). elim (Bool-cases (is_terminal r.state)) [
      | inl ended' ↦ absurd (ground (arith, h, transition_terminal r e ended'))
      | inr going ↦ going
    ],
    λ h. (cancel, cancelled_run r, transition-cancel r h),
  )
