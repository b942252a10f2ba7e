-- ===== src/Process/Tree/Orphan.antt =====
-- A first process whose parent has no entry, as the process 1 of Linux, whose parent is 0.
use keyfrog.Base.{
  ==_iff, there, subst, ℕ, suc, ℤ, pos, ◌<◌, ◌≡◌, refl, sym, ap, ◌∙◌, inl, inr, true, false, List,
  [], ◌∷◌, ◌++◌, none, some, arith, Bool-cases, eq_ℤ, eq_ℤ_iff, if◌then◌else◌, At, here,
}
use keyfrog.Base.Key.{int_key}
use keyfrog.Base.Map.{find-insert_self, find, insert, find-insert}
use keyfrog.Process.{Properties, ProcessMap}
use keyfrog.Process.Graph.{Bgl, BglLaws}
use keyfrog.Process.Tree.Reach.{Below, child, fetch_descendants_stuck}
use keyfrog.Process.Tree.{
  Tree, clear, add_process, Outcome, returned, connect, connect_after, add_connect_process,
  fetch_descendants,
}
use keyfrog.Process.Tree.Build.{grown, add_process_new}

pub At-last : (v : ℕ) (us : List ℕ) → At v (us ++ (v ∷ []))
At-last v [] = here
At-last v (u ∷ us) = there (At-last v us)

module _ (b : Bgl) (laws : BglLaws b) (procs : ProcessMap) where
  pub new_properties :
      (pid : ℤ) (p : Properties) (t : Tree b)
      → b.properties (grown b pid p t).graph (b.num_vertices t.graph) ≡ p
  new_properties pid p t =
      let n = b.num_vertices t.graph in
      let below : n < b.num_vertices (b.add_vertex t.graph) =
        omega (arith, laws.num-add_vertex t.graph) in
      laws.properties-set_properties n p (b.add_vertex t.graph) n below ∙ rw ((==_iff n n).1 refl)

  -- The rest of the call, behind a new vertex with its properties.
  abbrev pub onward : ℕ → ℕ → Tree b → Properties → Outcome b
  onward fuel v t p =
      if eq_ℤ (pos 0) p.pid
      then returned true t
      else connect_after b p.ppid v (elim (find p.ppid t.ids) [
        | some _ ↦ returned true t
        | none ↦ add_connect_process b fuel p.ppid procs t
      ])

  pub add_connect_process_new :
      (fuel : ℕ) (pid : ℤ) (p : Properties) (t : Tree b)
      → find pid t.ids ≡ none
      → find pid procs ≡ some p
      → add_connect_process b (suc fuel) pid procs t
        ≡ onward fuel (b.num_vertices t.graph) (grown b pid p t) p
  unfolding add_connect_process
  add_connect_process_new fuel pid p t absent known =
      rw (add_process_new b procs pid p t absent known, add_connect_process)
        (ap (onward fuel (b.num_vertices t.graph) (grown b pid p t)) (new_properties pid p t))

  -- The tree after a first process whose parent has no entry.
  abbrev orphaned : ℤ → Properties → Tree b
  orphaned pid p = record {
    graph = b.add_edge 0 (b.num_vertices b.empty) (grown b pid p (clear b)).graph;
    ids = insert p.ppid 0 (insert pid (b.num_vertices b.empty) []);
  }

  self_loop : (pid : ℤ) (p : Properties) → Below b (orphaned pid p).graph 0 0
  self_loop pid p =
      let n = b.num_vertices b.empty in
      let g = (grown b pid p (clear b)).graph in
      let size : b.num_vertices g ≡ suc n =
        laws.num-set_properties n p (b.add_vertex b.empty) ∙ laws.num-add_vertex b.empty in
      let edges = laws.out_edges-add_edge 0 n g 0 (omega (arith, size)) (omega (arith, size)) in
      child (
        subst (At 0) (sym edges) (
          subst (λ v. At 0 (b.out_edges g 0 ++ (v ∷ []))) (sym laws.num-empty)
            (At-last 0 (b.out_edges g 0))))

  pub parent_missing :
      (fuel : ℕ) (pid : ℤ) (t : Tree b)
      → find pid t.ids ≡ none
      → find pid procs ≡ none
      → add_connect_process b (suc fuel) pid procs t ≡ returned false t
  unfolding add_connect_process add_process
  parent_missing fuel pid t absent gone = rw (absent, gone, add_connect_process, add_process)

  -- Over a graph that keeps its laws, a process other than 0 that is the first in an empty tree,
  -- and whose parent is not in the map, is added with the answer true, and its descendants are then
  -- gathered with no amount of fuel.
  pub add_connect_process-orphan :
      (fuel fuel' : ℕ) (pid : ℤ) (p : Properties)
      → find pid procs ≡ some p
      → find p.ppid procs ≡ none
      → eq_ℤ (pos 0) p.pid ≡ false
      → (t : Tree b) × (add_connect_process b (suc (suc fuel)) pid procs (clear b)
          ≡ returned true t)
        × (fetch_descendants b fuel' pid t ≡ none)
  unfolding find connect
  add_connect_process-orphan fuel fuel' pid p known orphan proper =
      let n = b.num_vertices b.empty in
      let apart : eq_ℤ pid p.ppid ≡ false = elim (Bool-cases (eq_ℤ pid p.ppid)) [
        | inr e ↦ e
        | inl same ↦ cc (known, orphan, (eq_ℤ_iff pid p.ppid).0 same)
      ] in
      let apart' : eq_ℤ p.ppid pid ≡ false =
        ground (arith, eq_ℤ_iff pid p.ppid, eq_ℤ_iff p.ppid pid) in
      let absent : find p.ppid (insert pid n []) ≡ none = find-insert pid p.ppid n [] ∙ rw apart in
      let found : find pid (orphaned pid p).ids ≡ some n =
        find-insert p.ppid pid 0 (insert pid n []) ∙ rw apart' (find-insert_self pid n []) in
      (
        orphaned pid p,
        add_connect_process_new (suc fuel) pid p (clear b) refl known
            ∙ rw
                (proper, absent, parent_missing fuel p.ppid (grown b pid p (clear b)) absent orphan)
                (ap (returned true) (rw (absent, connect))),
        fetch_descendants_stuck b fuel' pid (orphaned pid p) n found (
            subst (λ v. Below b (orphaned pid p).graph v v) (sym laws.num-empty) (self_loop pid p)),
      )
