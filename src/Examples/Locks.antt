-- ===== src/Examples/Locks.antt =====
-- Two runs that ask for scopes.
use sync_plus.Base.{
  ◌≡◌, ◌↔◌, ◌⊎◌, refl, false, List, [], ◌∷◌, some, arith, Elem, ok, err, nat_eq, text_eq,
}
use sync_plus.Base.Order.{sort_by}
use sync_plus.Path.{FilePath, path_eq, component_eq, root_dir, parent_dir, normal}
use sync_plus.ScopeLock.{
  PeerScope, local, ScopeLockOwner, HeldScope, LockState, conflict, empty_scopes, new_registry,
  acquire, overlaps, namespace_eq, scope_eq, normalize_path,
}
use sync_plus.ScopeLock.Registry.{IsConflict, acquire_err, acquire_ok}
use sync_plus.ScopeLock.Registry.Exclusive.{
  LockStep, asks, drops, IsExclusive, apply_all, apply_all-IsExclusive,
}

abbrev home : FilePath
home = record { components = root_dir ∷ normal (b'h' ∷ []) ∷ [] }

abbrev below_home : FilePath
below_home = record { components = root_dir ∷ normal (b'h' ∷ []) ∷ normal (b'd' ∷ []) ∷ [] }

abbrev at_home : PeerScope
at_home = record { namespace = local; path = home }

abbrev inside_home : PeerScope
inside_home = record { namespace = local; path = below_home }

abbrev first_run : ScopeLockOwner
first_run = record { profile_name = b'a' ∷ []; run_id = 1 }

abbrev second_run : ScopeLockOwner
second_run = record { profile_name = b'b' ∷ []; run_id = 2 }

abbrev held_once : LockState
held_once = record {
  next_token = 1;
  held = record { token = 1; scope = at_home; owner = first_run } ∷ [];
}

granted : acquire new_registry first_run (at_home ∷ []) ≡ (held_once, ok 1)
unfolding acquire sort_by path_eq text_eq nat_eq
granted = refl

refused : acquire held_once second_run (inside_home ∷ []) ≡ (
  held_once,
  err (conflict (record { requested = inside_home; held = at_home; owner = first_run })),
)
unfolding acquire sort_by path_eq text_eq nat_eq namespace_eq component_eq
refused = refl

acquire_err_example :
    (held_once ≡ held_once)
    × (((inside_home ∷ [] ≡ [])
          × (conflict (record { requested = inside_home; held = at_home; owner = first_run })
              ≡ empty_scopes))
        ⊎ ((c : _) × (conflict
                (record { requested = inside_home; held = at_home; owner = first_run })
              ≡ conflict c)
            × IsConflict held_once.held (inside_home ∷ []) c))
acquire_err_example =
    acquire_err held_once held_once second_run (inside_home ∷ [])
      (conflict (record { requested = inside_home; held = at_home; owner = first_run })) refused

acquire_ok_example :
    ((s : PeerScope)
      → Elem s (at_home ∷ [])
      → (x : HeldScope) → Elem x []
      → overlaps s x.scope ≡ false)
    × ((x : HeldScope)
        → Elem x held_once.held
          ↔ (Elem x [] ⊎ ((x.token ≡ 1) × (x.owner ≡ first_run) × Elem x.scope (at_home ∷ []))))
acquire_ok_example = acquire_ok new_registry held_once first_run (at_home ∷ []) 1 granted

abbrev three_steps : List LockStep
three_steps = drops 1 ∷ asks second_run (inside_home ∷ []) ∷ asks first_run (at_home ∷ []) ∷ []

apply_all-IsExclusive_example : IsExclusive (apply_all new_registry three_steps)
apply_all-IsExclusive_example = apply_all-IsExclusive three_steps (omega arith)

new_registry-IsExclusive : IsExclusive new_registry
new_registry-IsExclusive = record { bounded = λ x k. elim k [ ]; apart = λ x y k. elim k [ ] }

abbrev above : FilePath
above = record { components = parent_dir ∷ normal (b'd' ∷ []) ∷ [] }

-- A parent directory takes the last name away.
normalized :
    normalize_path (some home) above ≡ record { components = root_dir ∷ normal (b'd' ∷ []) ∷ [] }
unfolding path_eq component_eq
normalized = refl
