-- ===== src/Process/Tree/Build.antt =====
-- Building the tree: how far the recursion over parents goes.
use keyfrog.Base.{
  subst, ℕ, zero, suc, ℤ, pos, ◌<◌, ◌≤◌, ◌≡◌, ◌≢◌, refl, sym, ap, ◌∙◌, inl, inr, Bool, true, false,
  List, [], ◌∷◌, none, some, arith, Option-cases, Bool-cases, length, eq_ℤ, eq_ℤ_iff, if◌then◌else◌,
}
use keyfrog.Base.Key.{int_key}
use keyfrog.Base.Map.{find, insert, find-insert}
use keyfrog.Process.{Properties, ProcessMap}
use keyfrog.Process.Graph.{Bgl}
use keyfrog.Process.Tree.{
  Tree, created, add_process, Outcome, returned, undefined, out_of_fuel, connect, connect_after,
  add_connect_process, add_each, add_connect_processes,
}

-- The processes of a map that have no vertex yet.
unfoldable pub pending : ProcessMap → List (ℤ × ℕ) → ℕ
pending [] ids = 0
pending ((pid, _) ∷ rest) ids = elim (find pid ids) [
  | some _ ↦ pending rest ids
  | none ↦ suc (pending rest ids)
]

pending_le : (procs : ProcessMap) (ids : List (ℤ × ℕ)) → pending procs ids ≤ length procs
unfolding pending
pending_le [] ids = ground arith
pending_le ((pid, p) ∷ rest) ids = elim (Option-cases (find pid ids)) [
  | inl e ↦ ground (arith, pending_le rest ids)
  | inr (v, e) ↦ ground (arith, pending_le rest ids)
]

-- A new vertex leaves no more processes without one.
pending-insert :
    (procs : ProcessMap) (ids : List (ℤ × ℕ)) (pid : ℤ) (v : ℕ)
    → pending procs (insert pid v ids) ≤ pending procs ids
unfolding pending
pending-insert [] ids pid v = ground arith
pending-insert ((k, p) ∷ rest) ids pid v = elim (Bool-cases (eq_ℤ pid k)) [
  | inl same ↦ elim (Option-cases (find k ids)) [
    | inl e ↦ ground (arith, find-insert pid k v ids, pending-insert rest ids pid v)
    | inr (u, e) ↦ ground (arith, find-insert pid k v ids, pending-insert rest ids pid v)
  ]
  | inr other ↦ elim (Option-cases (find k ids)) [
    | inl e ↦ ground (arith, find-insert pid k v ids, pending-insert rest ids pid v)
    | inr (u, e) ↦ ground (arith, find-insert pid k v ids, pending-insert rest ids pid v)
  ]
]

-- A vertex for a process of the map leaves one less.
pending-insert_new :
    (procs : ProcessMap) (ids : List (ℤ × ℕ)) (pid : ℤ) (v : ℕ) (p : Properties)
    → find pid procs ≡ some p
    → find pid ids ≡ none
    → pending procs (insert pid v ids) < pending procs ids
unfolding pending find
pending-insert_new [] ids pid v p e new = ground arith
pending-insert_new ((k, q) ∷ rest) ids pid v p e new = elim (Bool-cases (eq_ℤ k pid)) [
  | inl same ↦
      let is : k ≡ pid = (eq_ℤ_iff k pid).0 same in
      let here : find k ids ≡ none = ap (λ i. find i ids) is ∙ new in
      let self : eq_ℤ pid k ≡ true = (eq_ℤ_iff pid k).1 (sym is) in
      ground (arith, find-insert pid k v ids, pending-insert rest ids pid v)
  | inr other ↦
      let apart : eq_ℤ pid k ≡ false = ground (arith, eq_ℤ_iff pid k, eq_ℤ_iff k pid) in
      let later = pending-insert_new rest ids pid v p (ground arith) new in
      elim (Option-cases (find k ids)) [
        | inl e' ↦ ground (arith, find-insert pid k v ids)
        | inr (u, e') ↦ ground (arith, find-insert pid k v ids)
      ]
]

-- The tree with one more vertex.
abbrev pub grown : (b : Bgl) → ℤ → Properties → Tree b → Tree b
grown b pid p t = record {
  graph = b.set_properties (b.num_vertices t.graph) p (b.add_vertex t.graph);
  ids = insert pid (b.num_vertices t.graph) t.ids;
}

module _ (b : Bgl) (procs : ProcessMap) where
  pub add_process_new :
      (pid : ℤ) (p : Properties) (t : Tree b)
      → find pid t.ids ≡ none
      → find pid procs ≡ some p
      → add_process b pid procs t ≡ created (b.num_vertices t.graph) (grown b pid p t)
  unfolding add_process
  add_process_new pid p t absent known = rw (absent, known, add_process)

  -- The call ends, with at most so many processes that have no vertex.
  abbrev pub Ends : ℕ → Outcome b → Type 0
  Ends n (returned r t) = pending procs t.ids ≤ n
  Ends n undefined = Unit
  Ends n out_of_fuel = ⊥

  Ends-le : (n m : ℕ) (r : Outcome b) → n ≤ m → Ends n r → Ends m r
  Ends-le n m (returned a t) h e = omega arith
  Ends-le n m undefined h e = tt
  Ends-le n m out_of_fuel h e = e

  connect-Ends :
      (n : ℕ) (ppid : ℤ) (v : ℕ) (r : Outcome b) → Ends n r → Ends n (connect_after b ppid v r)
  unfolding connect
  connect-Ends n ppid v (returned a t) e = elim (Option-cases (find ppid t.ids)) [
    | inl absent ↦ ground (arith, pending-insert procs t.ids ppid 0)
    | inr (u, present) ↦ ground arith
  ]
  connect-Ends n ppid v undefined e = tt
  connect-Ends n ppid v out_of_fuel e = e

  -- What follows the new vertex of a process.
  after_created-Ends :
      (n v : ℕ) (ppid : ℤ) (root : Bool) (t : Tree b) (parent : Outcome b)
      → pending procs t.ids ≤ n
      → Ends n parent
      → Ends n (
          if root
          then returned true t
          else connect_after b ppid v
              (elim (find ppid t.ids) [ some _ ↦ returned true t | none ↦ parent ]))
  after_created-Ends n v ppid true t parent h e = h
  after_created-Ends n v ppid false t parent h e =
      connect-Ends n ppid v _ (elim (Option-cases (find ppid t.ids)) [
        | inl absent ↦ rw absent e
        | inr (u, present) ↦ rw present h
      ])

  add_connect_process-Ends :
      (fuel : ℕ) (pid : ℤ) (t : Tree b)
      → pending procs t.ids < fuel
      → Ends (pending procs t.ids) (add_connect_process b fuel pid procs t)
  unfolding add_connect_process add_process
  add_connect_process-Ends zero pid t h = absurd (omega arith)
  add_connect_process-Ends (suc fuel) pid t h = elim (Option-cases (find pid t.ids)) [
    | inr (v, present) ↦ rw (present, add_connect_process, add_process) tt
    | inl absent ↦ elim (Option-cases (find pid procs)) [
      | inl gone ↦ rw (absent, gone, add_connect_process, add_process) (omega arith)
      | inr (p, known) ↦
          let t' : Tree b = grown b pid p t in
          let v : ℕ = b.num_vertices t.graph in
          let q : Properties = b.properties t'.graph v in
          let less = pending-insert_new procs t.ids pid v p known absent in
          let parent = add_connect_process-Ends fuel q.ppid t' (omega arith) in
          rw (add_process_new pid p t absent known, add_connect_process)
            (after_created-Ends (pending procs t.ids) v q.ppid (eq_ℤ (pos 0) q.pid) t'
              (add_connect_process b fuel q.ppid procs t') (omega arith)
              (Ends-le _ _ (add_connect_process b fuel q.ppid procs t') (omega arith) parent))
    ]
  ]

  add_each-Ends :
      (fuel : ℕ) (left : ProcessMap) (r : Bool) (t : Tree b)
      → pending procs t.ids < fuel
      → Ends (pending procs t.ids) (add_each b fuel procs left r t)
  unfolding add_each
  add_each-Ends fuel [] r t h = omega arith
  add_each-Ends fuel ((pid, p) ∷ left) false t h = add_each-Ends fuel left false t h
  add_each-Ends fuel ((pid, p) ∷ left) true t h =
      step (add_connect_process b fuel pid procs t) refl (add_connect_process-Ends fuel pid t h)
        (λ a t' le.
          Ends-le _ _ (add_each b fuel procs left a t') le
            (add_each-Ends fuel left a t' (omega arith)))
    where
      step :
          (r : Outcome b)
          → add_connect_process b fuel pid procs t ≡ r
          → Ends (pending procs t.ids) r
          → ((a : Bool) (t' : Tree b)
              → pending procs t'.ids ≤ pending procs t.ids
              → Ends (pending procs t.ids) (add_each b fuel procs left a t'))
          → Ends (pending procs t.ids) (add_each b fuel procs ((pid, p) ∷ left) true t)
      step (returned a t') e ends rest = rw (e, add_each) (rest a t' ends)
      step undefined e ends rest = rw (e, add_each) tt
      step out_of_fuel e ends rest = absurd ends

-- addConnectProcesses over a map ends with a recursion that is at most one call deeper than the map
-- has processes, from any tree, parents that go round in a circle included.
pub add_connect_processes_ends :
    (b : Bgl) (procs : ProcessMap) (t : Tree b)
    → add_connect_processes b (suc (length procs)) procs t ≢ out_of_fuel
unfolding add_connect_processes
add_connect_processes_ends b procs t e = subst (Ends b procs (pending procs t.ids)) e (
    add_each-Ends b procs (suc (length procs)) procs true t
      (ground (arith, pending_le procs t.ids)))
