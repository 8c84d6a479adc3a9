-- ===== src/MirrorDeletion/Authorized.antt =====
-- From the baseline to a deletion: what stands behind each action that removes a file.
use sync_plus.Base.{
  ◌≡◌, refl, sym, ◌∙◌, Bool, true, false, List, arith, Elem, Elem-filter, Elem-find, ok, ◌↔◌, ◌==◌,
  subst,
}
use sync_plus.Base.Keyed.{key-find_key}
use sync_plus.Path.{path_eq}
use sync_plus.Inventory.{SourceInventorySnapshot}
use sync_plus.Baseline.{SyncBaseline}
use sync_plus.Baseline.Recorded.{HasDistinctPaths}
use sync_plus.MirrorDeletion.{
  MirrorDeletionDecision, MirrorDeletionAction, delete_counterpart, mutates_files, candidate_path,
  deletion_candidates, resolve, confirm, deletion_actions, complete, failed_preserving_remaining,
  result_requires_review,
}
use sync_plus.MirrorDeletion.Candidates.{IsJustified, deletion_candidates-IsJustified}
use sync_plus.MirrorDeletion.Resolve.{resolve-chosen}

-- What authorizes an action that removes a file: the final confirmation, the user's decision to
-- delete at this path, and a justified candidate.
pub record IsAuthorized (baseline : SyncBaseline) (a b : SourceInventorySnapshot)
    (decisions : List MirrorDeletionDecision) (final_confirmation : Bool) (x : MirrorDeletionAction)
    : Type 0 where
  pub confirmed : final_confirmation ≡ true
  pub decision : MirrorDeletionDecision
  pub decided : Elem decision decisions
  pub here : decision.relative_path ≡ x.candidate.relative_path
  pub wanted : decision.choice ≡ delete_counterpart
  pub justified : IsJustified baseline a b x.candidate

confirm-inverse :
    (plan confirmed : List MirrorDeletionAction) (final_confirmation : Bool)
    → confirm plan final_confirmation ≡ ok confirmed
    → (final_confirmation ≡ true) × (plan ≡ confirmed)
unfolding confirm
confirm-inverse plan confirmed final_confirmation h = ground arith

mutates-wanted : (x : MirrorDeletionAction) → mutates_files x ≡ true → x.choice ≡ delete_counterpart
mutates-wanted x h = ground arith

-- Every deletion that a confirmed plan exposes is authorized: there was a final confirmation, a
-- decision on its path asked for it, and its candidate is justified by the baseline and by what the
-- two peers hold now. Neither of the two current inventories lists a path twice.
pub deletion_actions-IsAuthorized :
    (baseline : SyncBaseline) (a b : SourceInventorySnapshot)
    (decisions : List MirrorDeletionDecision) (plan confirmed : List MirrorDeletionAction)
    (final_confirmation : Bool) (x : MirrorDeletionAction)
    → HasDistinctPaths a
    → HasDistinctPaths b
    → resolve (deletion_candidates baseline a b) decisions ≡ ok plan
    → confirm plan final_confirmation ≡ ok confirmed
    → Elem x (deletion_actions confirmed)
    → IsAuthorized baseline a b decisions final_confirmation x
deletion_actions-IsAuthorized baseline a b decisions plan confirmed final_confirmation x ua ub h k
      e =
    let candidates = deletion_candidates baseline a b in
    let (final, same) = confirm-inverse plan confirmed final_confirmation k in
    let (listed, mutates) = Elem-filter mutates_files x confirmed e in
    let (d, decided, found, choice) =
      resolve-chosen candidates decisions plan h x (subst (Elem x) (sym same) listed) in
    let held = (Elem-find (λ c. c.relative_path == d.relative_path) candidates found).0 in
    record {
      confirmed = final;
      decision = d;
      decided = decided;
      here = sym (key-find_key candidate_path d.relative_path candidates found);
      wanted = choice ∙ mutates-wanted x mutates;
      justified = deletion_candidates-IsJustified baseline a b ua ub x.candidate held;
    }

-- The mirror counts as restored, and the other copy as gone, exactly after the completion of an
-- action that removes a file; every failure and every other choice keeps the copy and asks for
-- review.
pub complete_iff :
    (x : MirrorDeletionAction)
    → ((result_requires_review (complete x) ≡ false) ↔ (x.choice ≡ delete_counterpart))
      × ((complete x).preserves_remaining_copy ≡ result_requires_review (complete x))
      × (result_requires_review (failed_preserving_remaining x) ≡ true)
      × ((failed_preserving_remaining x).preserves_remaining_copy ≡ true)
unfolding complete failed_preserving_remaining
complete_iff x = ((λ h. ground arith, λ h. ground arith), ground arith, refl, refl)
