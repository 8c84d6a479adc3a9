-- ===== src/Analysis/Confirm/Current.antt =====
-- When a reviewed plan is confirmed.
use mathlib.Core.Option.{some-ne-none}
use sync_plus.Base.{
  Bool, true, false, ◌||◌, Option, none, List, [], ◌∷◌, contains, Text, is_empty, ◌≡◌, ◌↔◌, refl,
  sym, ap, ◌∙◌, arith, ◌/=◌, ok, require, bind_ok, require_ok, option_eq, ok-injective, Bool-cases,
  inl, inr,
}
use sync_plus.Base.Order.{Ord, insert_by, sort_by}
use sync_plus.Path.{FilePath, path_eq, path_ord}
use sync_plus.Profile.{SyncProfile}
use sync_plus.Plan.{PlanAction}
use sync_plus.Revision.{RevisionState, changed_paths, revision_state_eq}
use sync_plus.Revision.Changed.{kept_state, contains-changed_paths}
use sync_plus.Analysis.Walk.Unique.{has_unique_names}
use sync_plus.Analysis.Fresh.Planned.{IsAnalysis, analyze-IsAnalysis}
use sync_plus.Analysis.Fresh.{FreshAnalysis, equal_profiles, Root, analyze}
use sync_plus.Analysis.Confirm.{
  ConfirmedPlan, actions_eq, sorted_paths, paths_with, stale_with, dedup_paths, stale_paths,
  stale_error, profile_error, confirm_refreshed_unchecked, confirm_refreshed, confirm_analysis,
}

-- Neither peer has an item that changed in type, metadata or outcome, appeared or went.
abbrev pub IsUnchanged : FreshAnalysis → FreshAnalysis → Type 0
IsUnchanged a b =
    (path : FilePath)
    → (kept_state a.source_inventory path ≡ kept_state b.source_inventory path)
      × (kept_state a.destination_inventory path ≡ kept_state b.destination_inventory path)

insert_by-not_empty :
    {A K : Type 0} ⦃o : Ord K⦄ (key : A → K) (a : A) (xs : List A)
    → is_empty (insert_by key a xs) ≡ false
insert_by-not_empty key a [] = refl
insert_by-not_empty key a (x ∷ xs) = ground arith

sort_by-is_empty :
    {A K : Type 0} ⦃o : Ord K⦄ (key : A → K) (xs : List A) → is_empty (sort_by key xs) ≡ is_empty xs
unfolding sort_by
sort_by-is_empty key [] = refl
sort_by-is_empty key (x ∷ xs) = insert_by-not_empty key x (sort_by key xs)

dedup_paths-is_empty : (paths : List FilePath) → is_empty (dedup_paths paths) ≡ is_empty paths
dedup_paths-is_empty [] = refl
dedup_paths-is_empty (p ∷ []) = refl
dedup_paths-is_empty (p ∷ q ∷ paths) = ground (arith, dedup_paths-is_empty (q ∷ paths))

nothing : (paths : List FilePath) → ((path : FilePath) → contains paths path ≡ false) → paths ≡ []
nothing [] h = refl
nothing (p ∷ paths) h = absurd (ground (arith, h p))

paths_with-empty :
    (changed : List FilePath) (xs ys : List PlanAction)
    → is_empty (paths_with changed xs ys) ≡ true
    → (changed ≡ []) × (xs ≡ []) × (ys ≡ [])
paths_with-empty [] [] [] h = (refl, refl, refl)
paths_with-empty [] [] (y ∷ ys) h = cc
paths_with-empty [] (x ∷ xs) ys h = cc
paths_with-empty (p ∷ changed) xs ys h = cc

actions_self : (xs : List PlanAction) → (xs /= xs) ≡ false
actions_self xs = ground arith

-- Nothing is stale exactly if no path changed and the actions are the same.
stale_with-empty :
    (changed : List FilePath) (xs ys : List PlanAction)
    → stale_with changed xs ys ≡ []
    → (changed ≡ []) × (xs ≡ ys)
unfolding stale_with
stale_with-empty changed xs ys h = elim (Bool-cases (xs /= ys)) [
  | inl differ ↦
      let paths = paths_with changed xs ys in
      let named : dedup_paths (sorted_paths paths) ≡ [] = rw differ at h in
      let (p, q, r) = paths_with-empty changed xs ys (
        sym (sort_by-is_empty (λ path. path) paths)
        ∙ sym (dedup_paths-is_empty (sorted_paths paths))
        ∙ ap is_empty named) in
      (p, q ∙ sym r)
  | inr same ↦ (rw same at h, ground (arith, same))
]

stale_with-nil : (xs : List PlanAction) → stale_with [] xs xs ≡ []
unfolding stale_with
stale_with-nil xs = rw (actions_self xs) refl

stale_error-none : (paths : List FilePath) → stale_error paths ≡ none → paths ≡ []
stale_error-none [] h = refl
stale_error-none (p ∷ paths) h = cc

profile_error-none : (p q : SyncProfile) → profile_error p q ≡ none → equal_profiles p q ≡ true
profile_error-none p q h = elim (Bool-cases (equal_profiles p q)) [
  | inl e ↦ e
  | inr e ↦ absurd (some-ne-none _ (rw e at h))
]

abbrev confirmed : FreshAnalysis → SyncProfile → ConfirmedPlan
confirmed a current = record { plan = a.plan; profile = current }

confirm_refreshed_unchecked_only :
    (a b : FreshAnalysis) (current : SyncProfile) (c : ConfirmedPlan)
    → confirm_refreshed_unchecked a current b ≡ ok c
    → (stale_paths a b ≡ []) × (confirmed a current ≡ c)
unfolding confirm_refreshed_unchecked
confirm_refreshed_unchecked_only a b current c h =
    let (t, fresh, made) = bind_ok (require (stale_error (stale_paths a b))) _ h in
    (stale_error-none (stale_paths a b) (require_ok _ fresh), ok-injective made)

confirm_refreshed_only :
    (a b : FreshAnalysis) (current : SyncProfile) (c : ConfirmedPlan)
    → confirm_refreshed a current b ≡ ok c
    → (equal_profiles a.profile current ≡ true) × (stale_paths a b ≡ []) × (confirmed a current ≡ c)
unfolding confirm_refreshed
confirm_refreshed_only a b current c h =
    let (t, same, next) = bind_ok (require (profile_error a.profile current)) _ h in
    let (fresh, made) = confirm_refreshed_unchecked_only a b current c next in
    (profile_error-none a.profile current (require_ok _ same), fresh, made)

confirm_refreshed_if :
    (a b : FreshAnalysis) (current : SyncProfile)
    → equal_profiles a.profile current ≡ true
    → stale_paths a b ≡ []
    → confirm_refreshed a current b ≡ ok (confirmed a current)
unfolding confirm_refreshed confirm_refreshed_unchecked
confirm_refreshed_if a b current h k = rw (h, k) refl

stale_paths_only :
    (a b : FreshAnalysis)
    → stale_paths a b ≡ []
    → (changed_paths a.revision b.revision ≡ []) × (a.plan.actions ≡ b.plan.actions)
unfolding stale_paths
stale_paths_only a b h =
    stale_with-empty (changed_paths a.revision b.revision) a.plan.actions b.plan.actions h

stale_paths_if :
    (a b : FreshAnalysis)
    → changed_paths a.revision b.revision ≡ []
    → a.plan.actions ≡ b.plan.actions
    → stale_paths a b ≡ []
unfolding stale_paths
stale_paths_if a b h k = rw (h, k) (stale_with-nil b.plan.actions)

same_states : (x y z w : Option RevisionState) → ((x /= y) || (z /= w)) ≡ false → (x ≡ y) × (z ≡ w)
same_states x y z w h = (ground (arith, h), ground (arith, h))

not_changed : (x y z w : Option RevisionState) → x ≡ y → z ≡ w → ((x /= y) || (z /= w)) ≡ false
not_changed x y z w h k = ground (arith, h, k)

module _ {p q : SyncProfile} (a b : FreshAnalysis) (ia : IsAnalysis p a) (ib : IsAnalysis q b) where
  contains-changed :
      (path : FilePath)
      → contains (changed_paths a.revision b.revision) path ≡ (
          (kept_state a.source_inventory path /= kept_state b.source_inventory path)
          || (kept_state a.destination_inventory path /= kept_state b.destination_inventory path))
  contains-changed path =
      rw (ia.revised, ib.revised)
        (contains-changed_paths a.source_inventory a.destination_inventory b.source_inventory
          b.destination_inventory path ia.unique_source ia.unique_destination ib.unique_source
          ib.unique_destination)

  changed-IsUnchanged : changed_paths a.revision b.revision ≡ [] → IsUnchanged a b
  changed-IsUnchanged h path =
      same_states (kept_state a.source_inventory path) (kept_state b.source_inventory path)
        (kept_state a.destination_inventory path) (kept_state b.destination_inventory path)
        (sym (contains-changed path) ∙ ap (λ (ps : List FilePath). contains ps path) h)

  changed-nil : IsUnchanged a b → changed_paths a.revision b.revision ≡ []
  changed-nil u =
      nothing _ (λ path. contains-changed path ∙ not_changed _ _ _ _ (u path).0 (u path).1)

  -- Against a later analysis, a reviewed plan is confirmed exactly if the profile is the reviewed one,
  -- neither peer has an item that changed in type, metadata or outcome, appeared or went, and the
  -- actions are the same; what is confirmed is the reviewed plan. No inventory lists a path twice.
  confirm_refreshed_iff :
      (current : SyncProfile)
      → (confirm_refreshed a current b ≡ ok (record { plan = a.plan; profile = current })) ↔ (
          (equal_profiles a.profile current ≡ true)
          × IsUnchanged a b
          × (a.plan.actions ≡ b.plan.actions))
  confirm_refreshed_iff current = (
    λ h.
        let (same, fresh, made) = confirm_refreshed_only a b current (confirmed a current) h in
        let (unchanged, actions) = stale_paths_only a b fresh in
        (same, changed-IsUnchanged unchanged, actions),
    λ (same, unchanged, actions).
        confirm_refreshed_if a b current same (stale_paths_if a b (changed-nil unchanged) actions),
  )

-- A confirmation succeeds only if a new analysis of the same profile, at that moment, finds both peers
-- unchanged in the items' types, metadata and outcomes and proposes the same actions; what it
-- confirms is the reviewed plan. The reviewed analysis was made when no folder had two entries of one
-- name, and none has now.
pub confirm_analysis-IsUnchanged :
    (is_dir is_dir_now : Text → Bool) (files files_now : Text → Root)
    (profile current : SyncProfile) (reviewed : FreshAnalysis) (c : ConfirmedPlan)
    → ((path : Text) → has_unique_names (files path).listing ≡ true)
    → ((path : Text) → has_unique_names (files_now path).listing ≡ true)
    → analyze is_dir files profile ≡ ok reviewed
    → confirm_analysis is_dir_now files_now reviewed current ≡ ok c
    → (refreshed : FreshAnalysis) × (analyze is_dir_now files_now current ≡ ok refreshed)
      × (equal_profiles profile current ≡ true)
      × IsUnchanged reviewed refreshed
      × (reviewed.plan.actions ≡ refreshed.plan.actions)
      × (c.plan ≡ reviewed.plan)
unfolding confirm_analysis
confirm_analysis-IsUnchanged is_dir is_dir_now files files_now profile current reviewed c u v h k =
    let ia = analyze-IsAnalysis is_dir files u profile reviewed h in
    let (t, same, next) = bind_ok (require (profile_error reviewed.profile current)) _ k in
    let (refreshed, analyzed, last) = bind_ok (analyze is_dir_now files_now current) _ next in
    let ib = analyze-IsAnalysis is_dir_now files_now v current refreshed analyzed in
    let (same', fresh, made) = confirm_refreshed_only reviewed refreshed current c last in
    let (unchanged, actions) = stale_paths_only reviewed refreshed fresh in
    (
      refreshed,
      analyzed,
      rw (← ia.of_profile) same',
      changed-IsUnchanged reviewed refreshed ia ib unchanged,
      actions,
      sym (ap (λ (x : ConfirmedPlan). x.plan) made),
    )
