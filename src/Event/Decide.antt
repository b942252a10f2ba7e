-- ===== src/Event/Decide.antt =====
-- `setGroupId` as one decision over what the window and its processes are called.
use keyfrog.Base.{
  Option, ◌⊎◌, ℕ, ℤ, ◌≡◌, sym, ⊎_elim, inl, inr, ◌&&◌, [], some, arith, Bool-cases, eq_ℤ,
  if◌then◌else◌, subst,
}
use keyfrog.Base.Text.{Text}
use keyfrog.Window.{KfWindowCache, find_and_use_window, fetch_class_name, fetch_client_pid}
use keyfrog.Window.Cache.{fetch_client_pid_again}
use keyfrog.Process.Graph.{Bgl}
use keyfrog.Process.Tree.{ProcSet, fetch_descendants, fetch_name}
use keyfrog.Filter.{FilterConfig, no_group, match_term_proc, match_proc, match_window_class}
use keyfrog.Monitor.{RawEvent, key_press, destroy_notify, focus_in}
use keyfrog.Event.{World, ok, is_terminal, is_pid, match_terminal, match_owner, set_group_id}

module _ (b : Bgl) (world : World b) (groups : FilterConfig) where
  open world use {server, tree, fuel}

  abbrev pub or_else : ℤ → ℤ → ℤ
  or_else gid other = if eq_ℤ gid no_group then other else gid

  -- The processes below a terminal, then the process that owns the window, then the window's class:
  -- the first of the three that matches a group.
  unfoldable pub decide : (class_name : Text) (pid : ℤ) (dprocs : ProcSet) (owner : Text) → ℤ
  decide class_name pid dprocs owner =
      let inside =
        if is_terminal b world groups class_name && is_pid b world groups pid
        then match_term_proc groups dprocs
        else no_group in
      let owned = if is_pid b world groups pid then match_proc groups owner else no_group in
      or_else (or_else inside owned) (match_window_class groups class_name)

  -- The processes below the pid, where the filter asks for them: for a terminal with a pid.
  abbrev pub asked_below : (class_name : Text) (pid : ℤ) → Option ProcSet
  asked_below class_name pid =
      if is_terminal b world groups class_name && is_pid b world groups pid
      then fetch_descendants b fuel pid tree
      else some []

  pub again :
      (cache after : KfWindowCache) (pid : ℤ)
      → fetch_client_pid server fuel cache ≡ some (pid, after)
      → fetch_client_pid server fuel after ≡ some (pid, after)
  again cache after pid e =
      ⊎_elim (λ same. same)
        (λ (zero_pid, kept).
          subst (λ c. fetch_client_pid server fuel c ≡ some (pid, after)) (sym kept) e)
        (fetch_client_pid_again server server fuel fuel cache pid after e)

  -- Where the class name and the pid of a window are fetched and the processes below that pid are
  -- gathered, setGroupId gives the first match of three: a process below a terminal, the process
  -- that owns the window, the window's class; and it leaves the cache of the second fetch.
  pub set_group_id_lem :
      (window : ℕ) (cache named after : KfWindowCache) (class_name : Text) (pid : ℤ)
      (dprocs : ProcSet)
      → fetch_class_name server fuel (find_and_use_window window cache) ≡ some (class_name, named)
      → fetch_client_pid server fuel named ≡ some (pid, after)
      → fetch_descendants b fuel pid tree ≡ some dprocs
      → set_group_id b world groups window cache
        ≡ ok (decide class_name pid dprocs (fetch_name b pid tree), after)
  unfolding set_group_id match_terminal match_owner decide
  set_group_id_lem window cache named after class_name pid dprocs name_is pid_is below =
      let pid_again = again named after pid pid_is in
      elim (Bool-cases (is_terminal b world groups class_name)) [
        | inl terminal ↦ elim (Bool-cases (is_pid b world groups pid)) [
          | inl p ↦ ground arith
          | inr p ↦ ground arith
        ]
        | inr plain ↦ ground arith
      ]

  -- The processes below the pid are gathered only where the filter asks for them.
  pub set_group_id_asked :
      (window : ℕ) (cache named after : KfWindowCache) (class_name : Text) (pid : ℤ)
      (dprocs : ProcSet)
      → fetch_class_name server fuel (find_and_use_window window cache) ≡ some (class_name, named)
      → fetch_client_pid server fuel named ≡ some (pid, after)
      → asked_below class_name pid ≡ some dprocs
      → set_group_id b world groups window cache
        ≡ ok (decide class_name pid dprocs (fetch_name b pid tree), after)
  unfolding set_group_id match_terminal match_owner decide
  set_group_id_asked window cache named after class_name pid dprocs name_is pid_is below =
      let pid_again = again named after pid pid_is in
      elim (Bool-cases (is_terminal b world groups class_name)) [
        | inl terminal ↦ elim (Bool-cases (is_pid b world groups pid)) [
          | inl p ↦ ground arith
          | inr p ↦ ground arith
        ]
        | inr plain ↦ ground arith
      ]

  -- The events that the monitor was asked to record, and focus changes.
  abbrev pub IsKnown : RawEvent → Type 0
  IsKnown r =
      (r.datum.type ≡ key_press) ⊎ ((r.datum.type ≡ destroy_notify) ⊎ (r.datum.type ≡ focus_in))
