-- ===== src/Process/Tree/Ordered.antt =====
-- Building the tree from a map in which no parent comes behind its child.
use keyfrog.Base.{
  ℕ, suc, ℤ, pos, ◌≡◌, ◌⊎◌, ⊎_elim, refl, sym, ap, ◌∙◌, inl, inr, true, List, [], ◌∷◌, none, some,
  arith, Option-cases, Bool-cases, eq_ℤ, eq_ℤ_iff, At, here, there, subst, if◌then◌else◌,
}
use keyfrog.Base.Key.{int_key}
use keyfrog.Base.Set.{At-cases}
use keyfrog.Base.Map.{find, insert, find-insert, find-insert_self}
use keyfrog.Process.{Properties, ProcessMap}
use keyfrog.Process.Graph.{Bgl, BglLaws}
use keyfrog.Process.Tree.{Tree, returned, connect, add_connect_process}
use keyfrog.Process.Tree.Build.{grown}
use keyfrog.Process.Tree.Orphan.{add_connect_process_new, parent_missing, onward}

module _ (procs : ProcessMap) where
  -- From here on each process has one entry, and its parent comes earlier, is the process itself, or
  -- has no entry.
  abbrev pub IsOrdered : ProcessMap → List ℤ → Type 0
  IsOrdered [] earlier = Unit
  IsOrdered ((pid, p) ∷ rest) earlier =
      (find pid procs ≡ some p)
      × (¬ At pid earlier)
      × (At p.ppid (pid ∷ earlier) ⊎ (find p.ppid procs ≡ none))
      × IsOrdered rest (pid ∷ earlier)

  -- The processes with a vertex are those that came earlier; a pid with no process may have one too.
  pub record Placed (ids : List (ℤ × ℕ)) (earlier : List ℤ) : Type 0 where
    pub known : (k : ℤ) → At k earlier → (v : ℕ) × (find k ids ≡ some v)
    pub only :
        (k : ℤ) (v : ℕ) (p : Properties)
        → find k ids ≡ some v
        → find k procs ≡ some p
        → At k earlier

  found-insert :
      (k pid : ℤ) (v n : ℕ) (ids : List (ℤ × ℕ))
      → find k ids ≡ some v
      → (u : ℕ) × (find k (insert pid n ids) ≡ some u)
  found-insert k pid v n ids e = elim (Bool-cases (eq_ℤ pid k)) [
    | inl same ↦ (n, find-insert pid k n ids ∙ rw same)
    | inr apart ↦ (v, find-insert pid k n ids ∙ rw apart e)
  ]

  pub Placed-new :
      (pid : ℤ) (n : ℕ) (ids : List (ℤ × ℕ)) (earlier : List ℤ)
      → Placed ids earlier
      → Placed (insert pid n ids) (pid ∷ earlier)
  Placed-new pid n ids earlier h = record {
    known = λ k m.
        ⊎_elim
          (λ same. (
            n,
            subst (λ j. find j (insert pid n ids) ≡ some n) (sym same) (find-insert_self pid n ids),
          ))
          (λ later. let (v, e) = h.known k later in found-insert k pid v n ids e) (At-cases m);
    only = λ k v p e in_map. elim (Bool-cases (eq_ℤ pid k)) [
      | inl same ↦ subst (λ j. At j (pid ∷ earlier)) ((eq_ℤ_iff pid k).0 same) here
      | inr apart ↦ there (h.only k v p (ground (arith, find-insert pid k n ids)) in_map)
    ];
  }

  Placed-parent :
      (ppid : ℤ) (ids : List (ℤ × ℕ)) (earlier : List ℤ)
      → find ppid procs ≡ none
      → Placed ids earlier
      → Placed (insert ppid 0 ids) earlier
  Placed-parent ppid ids earlier gone h = record {
    known = λ k m. let (v, e) = h.known k m in found-insert k ppid v 0 ids e;
    only = λ k v p e in_map. elim (Bool-cases (eq_ℤ ppid k)) [
      | inl same ↦ cc (gone, in_map, (eq_ℤ_iff ppid k).0 same)
      | inr apart ↦ h.only k v p (ground (arith, find-insert ppid k 0 ids)) in_map
    ];
  }

module _ (b : Bgl) (laws : BglLaws b) (procs : ProcessMap) where
  -- The tree behind a new vertex: the edge from its parent, but for the process 0.
  abbrev pub attached : ℕ → Properties → Tree b → Tree b
  attached v p t = if eq_ℤ (pos 0) p.pid then t else connect b p.ppid v t

  -- The tree behind a call for a process that has no vertex yet.
  abbrev pub stepped : ℤ → Properties → Tree b → Tree b
  stepped pid p t = attached (b.num_vertices t.graph) p (grown b pid p t)

  onward-Adds :
      (fuel v : ℕ) (pid : ℤ) (p : Properties) (t : Tree b) (earlier : List ℤ)
      → Placed procs t.ids (pid ∷ earlier)
      → At p.ppid (pid ∷ earlier) ⊎ (find p.ppid procs ≡ none)
      → (onward b laws procs (suc fuel) v t p ≡ returned true (attached v p t))
        × Placed procs (attached v p t).ids (pid ∷ earlier)
  unfolding connect
  onward-Adds fuel v pid p t earlier h parent = elim (Bool-cases (eq_ℤ (pos 0) p.pid)) [
    | inl root ↦ (rw root refl, rw root h)
    | inr child ↦ elim (Option-cases (find p.ppid t.ids)) [
      | inr (u, present) ↦ (
        rw (child, present) (ap (returned true) (rw (present, connect))),
        rw (child, present, connect) h,
      )
      | inl absent ↦
          let gone : find p.ppid procs ≡ none =
            ⊎_elim (λ m. let (u, e) = h.known p.ppid m in cc (absent, e)) (λ g. g) parent in
          (
            rw (child, absent, parent_missing b laws procs fuel p.ppid t absent gone)
                (ap (returned true) (rw (absent, connect))),
            rw (child, absent, connect) (Placed-parent procs p.ppid t.ids (pid ∷ earlier) gone h),
          )
    ]
  ]

  pub Placed-absent :
      (pid : ℤ) (p : Properties) (ids : List (ℤ × ℕ)) (earlier : List ℤ)
      → Placed procs ids earlier
      → find pid procs ≡ some p
      → ¬ At pid earlier
      → find pid ids ≡ none
  Placed-absent pid p ids earlier h in_map new = elim (Option-cases (find pid ids)) [
    | inr (v, present) ↦ absurd (new (h.only pid v p present in_map))
    | inl absent ↦ absent
  ]

  pub step-Adds :
      (fuel : ℕ) (pid : ℤ) (p : Properties) (t : Tree b) (earlier : List ℤ)
      → Placed procs t.ids earlier
      → find pid procs ≡ some p
      → ¬ At pid earlier
      → At p.ppid (pid ∷ earlier) ⊎ (find p.ppid procs ≡ none)
      → (add_connect_process b (suc (suc fuel)) pid procs t ≡ returned true (stepped pid p t))
        × Placed procs (stepped pid p t).ids (pid ∷ earlier)
  step-Adds fuel pid p t earlier h in_map new parent =
      let absent = Placed-absent pid p t.ids earlier h in_map new in
      let n = b.num_vertices t.graph in
      let (e, placed) =
        onward-Adds fuel n pid p (grown b pid p t) earlier (Placed-new procs pid n t.ids earlier h)
          parent in
      (add_connect_process_new b laws procs (suc fuel) pid p t absent in_map ∙ e, placed)
