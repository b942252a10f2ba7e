-- ===== src/Event/Told.antt =====
-- `setGroupId` over a tree that was built from the processes: which group a key press gets.
use keyfrog.Base.{
  ℕ, ℤ, ◌≤◌, ◌≡◌, ◌≢◌, ◌↔◌, refl, ap, ◌∙◌, Bool, true, false, ◌&&◌, some, At, if◌then◌else◌,
}
use keyfrog.Base.Text.{Text}
use keyfrog.Base.Key.{int_key}
use keyfrog.Base.Map.{find}
use keyfrog.Window.{KfWindowCache, find_and_use_window, fetch_class_name, fetch_client_pid}
use keyfrog.Process.{ProcessMap, Properties}
use keyfrog.Process.Graph.{Bgl, BglLaws}
use keyfrog.Process.Tree.{ProcSet}
use keyfrog.Process.Tree.Family.{first_pid}
use keyfrog.Process.Tree.Descend.{IsDescendant, Tells}
use keyfrog.Filter.{
  FilterConfig, no_group, names_one, match_term_proc, match_proc, match_window_class,
}
use keyfrog.Filter.First.{
  SameLetters, Chosen, first_group-Chosen, names_one_iff, match_proc-Chosen,
  match_window_class-Chosen,
}
use keyfrog.Event.{World, ok, is_terminal, is_pid, set_group_id}
use keyfrog.Event.Decide.{or_else, decide, set_group_id_lem}

module _ (b : Bgl) (laws : BglLaws b) (procs : ProcessMap) (world : World b)
    (groups : FilterConfig) where
  open world use {server, tree, fuel}

  -- A name of a process that descends from the pid, up to case.
  abbrev pub NamesDescendant : ℤ → Text → Type 0
  NamesDescendant pid name = (e : ℤ × Text) × IsDescendant b laws procs pid e × SameLetters name e.1

  names_one-NamesDescendant :
      (pid : ℤ) (found : ProcSet)
      → ((e : ℤ × Text) → At e found ↔ IsDescendant b laws procs pid e)
      → (name : Text) → (names_one found name ≡ true) ↔ NamesDescendant pid name
  names_one-NamesDescendant pid found exact name = (
    λ e. let (x, m, same) = (names_one_iff found name).0 e in (x, (exact x).0 m, same),
    λ (x, d, same). (names_one_iff found name).1 (x, (exact x).1 d, same),
  )

  pub match_term_proc-NamesDescendant :
      (pid : ℤ) (found : ProcSet)
      → ((e : ℤ × Text) → At e found ↔ IsDescendant b laws procs pid e)
      → Chosen (λ g. g.term_procs) (NamesDescendant pid) groups (match_term_proc groups found)
  unfolding match_term_proc
  match_term_proc-NamesDescendant pid found exact =
      first_group-Chosen (λ g. g.term_procs) (names_one found) (NamesDescendant pid)
        (names_one-NamesDescendant pid found exact) groups

  -- A matcher that is asked, or -1.
  abbrev pub Asked : Bool → (ℤ → Type 0) → ℤ → Type 0
  Asked true P gid = P gid
  Asked false P gid = gid ≡ no_group

  pub asked :
      (test : Bool) (P : ℤ → Type 0) (gid : ℤ)
      → P gid
      → Asked test P (if test then gid else no_group)
  asked true P gid h = h
  asked false P gid h = refl

  -- Over a tree whose reads are what a process map tells, with at least as much fuel as the tree
  -- has vertices, and where the class name and the pid of a window are fetched and the pid is a
  -- process of the map but not its first, setGroupId gives the first match of three: for a terminal
  -- with a pid, the first group that lists up to case the name of a process descending from the pid
  -- by the map; for a pid, the first group that lists the owner's name in the map; and the first
  -- group that lists the class name.
  pub set_group_id-Tells :
      (window : ℕ) (cache named after : KfWindowCache) (class_name : Text) (pid : ℤ)
      (owner : Properties)
      → Tells b laws procs tree
      → b.num_vertices tree.graph ≤ fuel
      → fetch_class_name server fuel (find_and_use_window window cache) ≡ some (class_name, named)
      → fetch_client_pid server fuel named ≡ some (pid, after)
      → find pid procs ≡ some owner
      → pid ≢ first_pid procs
      → (inside owned class : ℤ) × (set_group_id b world groups window cache
          ≡ ok (or_else b world groups (or_else b world groups inside owned) class, after))
        × Asked
            (is_terminal b world groups class_name && is_pid b world groups pid)
            (Chosen (λ g. g.term_procs) (NamesDescendant pid) groups)
            inside
        × Asked
            (is_pid b world groups pid)
            (Chosen (λ g. g.procs) (λ name. SameLetters name owner.name) groups)
            owned
        × Chosen (λ g. g.window_classes) (λ name. SameLetters name class_name) groups class
  unfolding decide
  set_group_id-Tells window cache named after class_name pid owner told enough name_is pid_is known
        other =
      let (names, below) = told in
      let (found, gathered, exact) = below fuel pid owner enough known other in
      let called = names pid owner known in
      let terminal = is_terminal b world groups class_name && is_pid b world groups pid in
      let p = is_pid b world groups pid in
      (
        if terminal then match_term_proc groups found else no_group,
        if p then match_proc groups owner.name else no_group,
        match_window_class groups class_name,
        set_group_id_lem b world groups window cache named after class_name pid found name_is pid_is
              gathered
            ∙ ap (λ n. ok (decide b world groups class_name pid found n, after)) called,
        asked terminal _ _ (match_term_proc-NamesDescendant pid found exact),
        asked p _ _ (match_proc-Chosen groups owner.name),
        match_window_class-Chosen groups class_name,
      )
