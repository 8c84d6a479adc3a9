-- ===== src/ScopeLock/Normal.antt =====
-- The paths that crates/syncplus-core/src/scope_lock.rs normalises to.
use sync_plus.Base.{◌≡◌, refl, sym, ◌∙◌, List, [], ◌∷◌, ◌++◌, Bool-cases, inl, inr, ap, Option, All}
use sync_plus.Path.{Component, root_dir, cur_dir, parent_dir, normal, FilePath}
use sync_plus.ScopeLock.{
  has_file_name, pop, push_component, push_components, normalize_remote_path, normalize_path,
  absolute_path,
}

abbrev pub IsName : Component → Type 0
IsName (normal part) = Unit
IsName _ = ⊥

-- Names only, after the root or from the start.
abbrev pub IsNormal : List Component → Type 0
IsNormal [] = Unit
IsNormal (root_dir ∷ cs) = All IsName cs
IsNormal (c ∷ cs) = IsName c × All IsName cs

pop-names : (cs : List Component) → All IsName cs → All IsName (pop cs)
pop-names [] h = tt
pop-names (c ∷ []) h = tt
pop-names (c ∷ d ∷ cs) h = (h.0, pop-names (d ∷ cs) h.1)

pop-IsNormal : (cs : List Component) → IsNormal cs → IsNormal (pop cs)
pop-IsNormal [] h = tt
pop-IsNormal (c ∷ []) h = tt
pop-IsNormal (root_dir ∷ d ∷ cs) h = pop-names (d ∷ cs) h
pop-IsNormal (normal part ∷ d ∷ cs) h = (tt, pop-names (d ∷ cs) h.1)
pop-IsNormal (cur_dir ∷ d ∷ cs) h = elim h.0 [ ]
pop-IsNormal (parent_dir ∷ d ∷ cs) h = elim h.0 [ ]

append-names :
    (cs : List Component) (part : List _) → All IsName cs → All IsName (cs ++ (normal part ∷ []))
append-names [] part h = (tt, tt)
append-names (c ∷ cs) part h = (h.0, append-names cs part h.1)

append-IsNormal :
    (cs : List Component) (part : List _) → IsNormal cs → IsNormal (cs ++ (normal part ∷ []))
append-IsNormal [] part h = (tt, tt)
append-IsNormal (root_dir ∷ cs) part h = append-names cs part h
append-IsNormal (normal p ∷ cs) part h = (tt, append-names cs part h.1)
append-IsNormal (cur_dir ∷ cs) part h = elim h.0 [ ]
append-IsNormal (parent_dir ∷ cs) part h = elim h.0 [ ]

push_component-IsNormal :
    (cs : List Component) (c : Component) → IsNormal cs → IsNormal (push_component cs c)
push_component-IsNormal cs root_dir h = tt
push_component-IsNormal cs cur_dir h = h
push_component-IsNormal cs parent_dir h = elim (Bool-cases (has_file_name cs)) [
  | inl e ↦ rw e (pop-IsNormal cs h)
  | inr e ↦ rw e h
]
push_component-IsNormal cs (normal part) h = append-IsNormal cs part h

push_components-IsNormal : (cs ds : List Component) → IsNormal cs → IsNormal (push_components cs ds)
push_components-IsNormal cs [] h = h
push_components-IsNormal cs (d ∷ ds) h =
    push_components-IsNormal (push_component cs d) ds (push_component-IsNormal cs d h)

append_assoc :
    (cs : List Component) (d : Component) (ds : List Component)
    → (cs ++ (d ∷ [])) ++ ds ≡ cs ++ (d ∷ ds)
append_assoc [] d ds = refl
append_assoc (c ∷ cs) d ds = ap (λ rest. c ∷ rest) (append_assoc cs d ds)

append_empty : (cs : List Component) → cs ++ [] ≡ cs
append_empty [] = refl
append_empty (c ∷ cs) = ap (λ rest. c ∷ rest) (append_empty cs)

push_components-names : (cs ds : List Component) → All IsName ds → push_components cs ds ≡ cs ++ ds
push_components-names cs [] h = sym (append_empty cs)
push_components-names cs (normal part ∷ ds) h =
    push_components-names (cs ++ (normal part ∷ [])) ds h.1 ∙ append_assoc cs (normal part) ds
push_components-names cs (root_dir ∷ ds) h = elim h.0 [ ]
push_components-names cs (cur_dir ∷ ds) h = elim h.0 [ ]
push_components-names cs (parent_dir ∷ ds) h = elim h.0 [ ]

push_components-fixed : (cs : List Component) → IsNormal cs → push_components [] cs ≡ cs
push_components-fixed [] h = refl
push_components-fixed (root_dir ∷ cs) h = push_components-names (root_dir ∷ []) cs h
push_components-fixed (normal part ∷ cs) h = push_components-names (normal part ∷ []) cs h.1
push_components-fixed (cur_dir ∷ cs) h = elim h.0 [ ]
push_components-fixed (parent_dir ∷ cs) h = elim h.0 [ ]

-- A scope's path has no `.` and no `..`: it is names only, after the root or from the start, and
-- normalising it again changes nothing. This holds of a remote path and of a local one, whatever
-- the current directory is.
pub normalize_path-IsNormal :
    (current_dir : Option FilePath) (path : FilePath)
    → IsNormal (normalize_path current_dir path).components
      × (normalize_remote_path (normalize_path current_dir path) ≡ normalize_path current_dir path)
      × IsNormal (normalize_remote_path path).components
      × (normalize_remote_path (normalize_remote_path path) ≡ normalize_remote_path path)
normalize_path-IsNormal current_dir path =
    let (m, i) = idempotent (absolute_path current_dir path) in
    let (n, j) = idempotent path in (m, i, n, j)
  where
    idempotent :
        (p : FilePath)
        → IsNormal (normalize_remote_path p).components
          × (normalize_remote_path (normalize_remote_path p) ≡ normalize_remote_path p)
    idempotent p =
        let n = push_components-IsNormal [] p.components tt in
        (n, ap (λ (cs : List Component). record { components = cs }) (push_components-fixed _ n))
