-- ===== src/Review/Resolve/Accepted.antt =====
-- What the loop of `ConflictReview::resolve` (resolution.rs) accepts.
use sync_plus.Base.{
  true, false, All, Option, none, some, List, [], ◌∷◌, ◌++◌, map, contains, ok, is_some, ◌≡◌, ◌↔◌,
  refl, sym, ap, ◌∙◌, arith, bind_ok, require, require_ok, nat_eq,
}
use sync_plus.Base.Keyed.{find_key, key-find_key, is_some-find_key}
use sync_plus.Base.Tree.{set_insert, set_extend}
use sync_plus.Path.{path_ord}
use sync_plus.Conflict.{ConflictEntryKey, available_resolutions, resolution_eq}
use sync_plus.Conflict.Key.{key_eq, key_ord}
use sync_plus.Resolution.{ConflictDecision, ConflictResolutionAction, action_from}
use sync_plus.Review.{ConflictEntry, row_key}
use sync_plus.Review.Resolve.{
  ConflictResolutionError, decision_key, choice_error, decision_error, decisions_loop,
}

-- A decision names a row of the review, and chooses what the row offers.
abbrev pub IsAllowed : List ConflictEntry → ConflictDecision → Type 0
IsAllowed entries d =
    (contains (map row_key entries) d.entry_key ≡ true)
    × (contains (available_resolutions d.entry_key.kind) d.resolution ≡ true)

append_nil : {A : Type 0} (xs : List A) → xs ++ [] ≡ xs
append_nil [] = refl
append_nil (x ∷ xs) = ap (λ zs. x ∷ zs) (append_nil xs)

append_one :
    {A : Type 0} (xs : List A) (x : A) (ys : List A) → xs ++ (x ∷ []) ++ ys ≡ xs ++ (x ∷ ys)
append_one [] x ys = refl
append_one (z ∷ xs) x ys = ap (λ zs. z ∷ zs) (append_one xs x ys)

abbrev pub AreFresh : List ConflictEntryKey → List ConflictDecision → Type 0
AreFresh seen [] = Unit
AreFresh seen (d ∷ ds) =
    (contains seen d.entry_key ≡ false) × AreFresh (set_insert d.entry_key seen) ds

-- What the check of one decision makes sure of.
choice_error-none :
    (seen : List ConflictEntryKey) (d : ConflictDecision)
    → (choice_error seen d d.entry_key.kind ≡ none) ↔ (
        (contains (available_resolutions d.entry_key.kind) d.resolution ≡ true)
        × (contains seen d.entry_key ≡ false))
choice_error-none seen d = ground arith

module _ (entries : List ConflictEntry) where
  abbrev found : ConflictDecision → Option ConflictEntry
  found d = find_key row_key d.entry_key entries

  abbrev checked : List ConflictEntryKey → ConflictDecision → Option ConflictResolutionError
  checked seen d = decision_error seen d (found d)

  -- The check is the choice's, on a row that is there.
  checked_at :
      (seen : List ConflictEntryKey) (d : ConflictDecision) (entry : Option ConflictEntry)
      → ((e : ConflictEntry) → entry ≡ some e → row_key e ≡ d.entry_key)
      → is_some entry ≡ true
      → decision_error seen d entry ≡ choice_error seen d d.entry_key.kind
  checked_at seen d none same h = ground arith
  checked_at seen d (some e) same h =
      ap (λ (k : ConflictEntryKey). choice_error seen d k.kind) (same e refl)

  checked_known :
      (seen : List ConflictEntryKey) (d : ConflictDecision)
      → contains (map row_key entries) d.entry_key ≡ true
      → checked seen d ≡ choice_error seen d d.entry_key.kind
  checked_known seen d known =
      checked_at seen d (found d) (λ e h. key-find_key row_key d.entry_key entries h)
        (is_some-find_key row_key d.entry_key entries ∙ known)

  checked-known :
      (seen : List ConflictEntryKey) (d : ConflictDecision)
      → checked seen d ≡ none
      → contains (map row_key entries) d.entry_key ≡ true
  checked-known seen d h = sym (is_some-find_key row_key d.entry_key entries) ∙ some_of (found d) h
    where
      some_of :
          (entry : Option ConflictEntry) → decision_error seen d entry ≡ none → is_some entry ≡ true
      some_of none h = ground arith
      some_of (some e) h = refl

  checked_iff :
      (seen : List ConflictEntryKey) (d : ConflictDecision)
      → (checked seen d ≡ none) ↔ (IsAllowed entries d × (contains seen d.entry_key ≡ false))
  checked_iff seen d = (
    λ h.
        let known = checked-known seen d h in
        let (offered, new) = (choice_error-none seen d).0 (sym (checked_known seen d known) ∙ h) in
        ((known, offered), new),
    λ h. checked_known seen d h.0.0 ∙ (choice_error-none seen d).1 (h.0.1, h.1),
  )

  abbrev pub end_of :
      List ConflictEntryKey
      → List ConflictResolutionAction
      → List ConflictDecision
      → List ConflictEntryKey × List ConflictResolutionAction
  end_of seen actions ds = (set_extend seen (map decision_key ds), actions ++ map action_from ds)

  -- The loop over allowed decisions on rows that are new each.
  pub decisions_loop-ends :
      (seen : List ConflictEntryKey) (actions : List ConflictResolutionAction)
      (ds : List ConflictDecision)
      → All (IsAllowed entries) ds
      → AreFresh seen ds
      → decisions_loop entries seen actions ds ≡ ok (end_of seen actions ds)
  unfolding decisions_loop set_extend
  decisions_loop-ends seen actions [] allowed fresh =
      ap (λ (xs : List ConflictResolutionAction). ok (seen, xs)) (sym (append_nil actions))
  decisions_loop-ends seen actions (d ∷ ds) allowed fresh =
      rw ((checked_iff seen d).1 (allowed.0, fresh.0)) (
        decisions_loop-ends (set_insert d.entry_key seen) (actions ++ (action_from d ∷ [])) ds
          allowed.1 fresh.1
        ∙ ap
            (λ (xs : List ConflictResolutionAction).
              ok (set_extend seen (map decision_key (d ∷ ds)), xs))
            (append_one actions (action_from d) (map action_from ds)))

  pub decisions_loop-accepted :
      (seen : List ConflictEntryKey) (actions : List ConflictResolutionAction)
      (ds : List ConflictDecision) {end : List ConflictEntryKey × List ConflictResolutionAction}
      → decisions_loop entries seen actions ds ≡ ok end
      → All (IsAllowed entries) ds × AreFresh seen ds
  unfolding decisions_loop
  decisions_loop-accepted seen actions [] h = (tt, tt)
  decisions_loop-accepted seen actions (d ∷ ds) {end} h =
      let (_, e, h1) = bind_ok (require (checked seen d)) _ h in
      let (allowed, new) = (checked_iff seen d).0 (require_ok _ e) in
      let (rest, fresh) =
        decisions_loop-accepted (set_insert d.entry_key seen) (actions ++ (action_from d ∷ [])) ds
          h1 in
      ((allowed, rest), (new, fresh))
