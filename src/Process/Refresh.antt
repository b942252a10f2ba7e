-- ===== src/Process/Refresh.antt =====
-- src/ProcessMonitor.cpp: the thread that builds the process tree anew every five seconds.
use keyfrog.Base.{ℕ, suc, ◌≡◌, refl, List, [], ◌∷◌, ◌++◌, Option, none, some, All}
use keyfrog.Process.{ProcessMap}
use keyfrog.Process.Graph.{Bgl, BglLaws}
use keyfrog.Process.Manager.{ProcessManager, ProcessManagerLaws}
use keyfrog.Process.Tree.{Tree, returned, undefined, out_of_fuel}
use keyfrog.Process.Tree.Ordered.{IsOrdered}
use keyfrog.Process.Tree.Family.{NoOwnParent}
use keyfrog.Process.Tree.Descend.{Tells, add_connect_processes-Tells}

module _ (b : Bgl) (manager : ProcessManager b) where
  open manager use {Sight, create_proc_tree}

  -- `eventLoop`, over what the system shows in its rounds; `none` is a call of the manager that does
  -- not come back, or a read of an unset vertex.
  unfoldable pub event_loop : ℕ → List Sight → Tree b → Option (Tree b)
  event_loop fuel [] tree = some tree
  event_loop fuel (sight ∷ later) tree = elim (create_proc_tree fuel sight tree) [
    | none ↦ none
    | some built ↦ elim built [
      | returned _ t ↦ event_loop fuel later t
      | undefined ↦ none
      | out_of_fuel ↦ none
    ]
  ]

  module _ (promises : ProcessManagerLaws b manager) where
    open promises use {Shows, builds}

    -- The tree can be built in the order of the map.
    abbrev pub IsOrderly : ProcessMap → Type 0
    IsOrderly procs = IsOrdered procs procs [] × NoOwnParent procs

    -- The system shows processes in such an order.
    abbrev pub ShowsOrderly : Sight → Type 0
    ShowsOrderly sight = (procs : ProcessMap) × Shows sight procs × IsOrderly procs

    -- Over a graph that keeps its laws, and for every process manager that builds the tree anew of
    -- the processes that the system shows: where in each round they have one entry each, none but 0
    -- is its own parent, and parents come earlier or have no entry, the process monitor goes
    -- through its rounds with calls at most two deep, and the names that are then read, and for
    -- every process but the first the descendants, are exactly those of the processes of the last
    -- round.
    pub event_loop_lem :
        (laws : BglLaws b) (fuel : ℕ) (rounds : List Sight) (sight : Sight) (procs : ProcessMap)
        (tree : Tree b)
        → All ShowsOrderly rounds
        → Shows sight procs
        → IsOrderly procs
        → (t : Tree b) × (event_loop (suc (suc fuel)) (rounds ++ (sight ∷ [])) tree ≡ some t)
          × Tells b laws procs t
    unfolding event_loop
    event_loop_lem laws fuel [] sight procs tree hs shown h =
        let (t, built, told) = add_connect_processes-Tells b laws procs fuel h.0 h.1 in
        (t, rw (event_loop, builds sight procs (suc (suc fuel)) tree shown, built) refl, told)
    event_loop_lem laws fuel (g ∷ rounds) sight procs tree ((earlier, seen, hg), hs) shown h =
        let (mid, built, _) = add_connect_processes-Tells b laws earlier fuel hg.0 hg.1 in
        let (t, ran, told) = event_loop_lem laws fuel rounds sight procs mid hs shown h in
        (t, rw (event_loop, builds g earlier (suc (suc fuel)) tree seen, built) ran, told)
