-- ===== src/Event/Between.antt =====
-- `setGroupId` of src/EventFilter.cpp while the process monitor builds the tree anew: the tree is locked
-- for each of its two reads, and may be another one at the second.
use keyfrog.Base.{
  ℕ, ℤ, ◌≤◌, ◌≡◌, ◌≢◌, ap, ◌∙◌, inl, inr, ◌&&◌, some, eq_ℤ, if◌then◌else◌, Bool-cases, arith,
}
use keyfrog.Base.Text.{Text}
use keyfrog.Base.Key.{int_key}
use keyfrog.Base.Map.{find}
use keyfrog.Window.{KfWindowCache, find_and_use_window, fetch_class_name, fetch_client_pid}
use keyfrog.Process.{ProcessMap, Properties}
use keyfrog.Process.Graph.{Bgl, BglLaws}
use keyfrog.Process.Tree.{Tree, ProcSet, fetch_descendants, fetch_name}
use keyfrog.Process.Tree.Family.{first_pid}
use keyfrog.Process.Tree.Descend.{Tells}
use keyfrog.Filter.{FilterConfig, no_group, match_term_proc, match_proc, match_window_class}
use keyfrog.Filter.First.{SameLetters, Chosen, match_proc-Chosen, match_window_class-Chosen}
use keyfrog.Event.{World, Result, ok, ◌>>=◌, lift, match_terminal, match_owner, is_terminal, is_pid}
use keyfrog.Event.Decide.{or_else, decide, again}
use keyfrog.Event.Told.{NamesDescendant, Asked, asked, match_term_proc-NamesDescendant}

module _ (b : Bgl) (world : World b) (groups : FilterConfig) where
  open world use {server, tree, fuel}

  -- With the tree that the owner's name is then read from.
  unfoldable pub set_group_id_between :
      (later : Tree b) → ℕ → KfWindowCache → Result (ℤ × KfWindowCache)
  set_group_id_between later window cache = do
    (class_name, named) ← lift (fetch_class_name server fuel (find_and_use_window window cache))
    (inside, cache') ← match_terminal b world groups class_name named
    let owner = match_owner b (record world { tree = later }) groups cache'
    (gid, cache'') ← (if eq_ℤ inside no_group then owner else ok (inside, cache'))
    ok ((if eq_ℤ gid no_group then match_window_class groups class_name else gid), cache'')

  -- One decision: the processes below the pid by the first tree, the owner's name by the second.
  set_group_id_between-decide :
      (later : Tree b) (window : ℕ) (cache named after : KfWindowCache) (class_name : Text)
      (pid : ℤ) (dprocs : ProcSet)
      → fetch_class_name server fuel (find_and_use_window window cache) ≡ some (class_name, named)
      → fetch_client_pid server fuel named ≡ some (pid, after)
      → fetch_descendants b fuel pid tree ≡ some dprocs
      → set_group_id_between later window cache
        ≡ ok (decide b world groups class_name pid dprocs (fetch_name b pid later), after)
  unfolding set_group_id_between match_terminal match_owner decide
  set_group_id_between-decide later window cache named after class_name pid dprocs name_is pid_is
        below =
      let pid_again = again b world groups named after pid pid_is in
      elim (Bool-cases (is_terminal b world groups class_name)) [
        | inl terminal ↦ elim (Bool-cases (is_pid b world groups pid)) [
          | inl p ↦ ground arith
          | inr p ↦ ground arith
        ]
        | inr plain ↦ ground arith
      ]

module _ (b : Bgl) (laws : BglLaws b) (procs procs' : ProcessMap) (world : World b)
    (groups : FilterConfig) where
  open world use {server, tree, fuel}

  -- Where the tree is built anew between the two reads of setGroupId, the first tree tells one map
  -- of processes and the second another, the fuel is at least the number of vertices of the first
  -- tree, the class name and the pid of the window are fetched, the pid is in both maps, and it is
  -- not the first of the first map: the group is that of the first terminal process that names a
  -- descendant of the pid in the first map, asked for only of a terminal with a pid; if that is
  -- none, that of the first process that has the name of the pid in the second map, asked for only
  -- with a pid; and if that is none too, that of the first window class that is the class name.
  pub set_group_id_between-Tells :
      (later : Tree b) (window : ℕ) (cache named after : KfWindowCache) (class_name : Text)
      (pid : ℤ) (old new : Properties)
      → Tells b laws procs tree
      → Tells b laws procs' later
      → b.num_vertices tree.graph ≤ fuel
      → fetch_class_name server fuel (find_and_use_window window cache) ≡ some (class_name, named)
      → fetch_client_pid server fuel named ≡ some (pid, after)
      → find pid procs ≡ some old
      → find pid procs' ≡ some new
      → pid ≢ first_pid procs
      → (inside owned class : ℤ) × (set_group_id_between b world groups later window cache
          ≡ ok (or_else b world groups (or_else b world groups inside owned) class, after))
        × Asked b laws procs world groups
            (is_terminal b world groups class_name && is_pid b world groups pid)
            (Chosen (λ g. g.term_procs) (NamesDescendant b laws procs world groups pid) groups)
            inside
        × Asked b laws procs world groups
            (is_pid b world groups pid)
            (Chosen (λ g. g.procs) (λ name. SameLetters name new.name) groups)
            owned
        × Chosen (λ g. g.window_classes) (λ name. SameLetters name class_name) groups class
  unfolding decide
  set_group_id_between-Tells later window cache named after class_name pid old new told told' enough
        name_is pid_is known known' other =
      let (found, gathered, exact) = told.1 fuel pid old enough known other in
      let terminal = is_terminal b world groups class_name && is_pid b world groups pid in
      let p = is_pid b world groups pid in
      (
        if terminal then match_term_proc groups found else no_group,
        if p then match_proc groups new.name else no_group,
        match_window_class groups class_name,
        set_group_id_between-decide b world groups later window cache named after class_name pid
              found name_is pid_is gathered
            ∙ ap (λ n. ok (decide b world groups class_name pid found n, after))
                (told'.0 pid new known'),
        asked b laws procs world groups terminal _ _
            (match_term_proc-NamesDescendant b laws procs world groups pid found exact),
        asked b laws procs world groups p _ _ (match_proc-Chosen groups new.name),
        match_window_class-Chosen groups class_name,
      )
