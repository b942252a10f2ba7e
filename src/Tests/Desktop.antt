-- ===== src/Tests/Desktop.antt =====
-- A key press in a terminal, over the tree that is built from the processes.
use keyfrog.Base.{
  eq_ℤ_iff, ℤ, pos, ◌≤◌, ◌≡◌, ◌≢◌, refl, inl, inr, true, false, ◌&&◌, [], ◌∷◌, At, here, there,
  arith, subst, eq_ℤ,
}
use keyfrog.Base.Text.{Text, text, text_eq}
use keyfrog.Base.Key.{int_key}
use keyfrog.Base.Map.{find, insert}
use keyfrog.Base.Set.{At-cases}
use keyfrog.Window.{new_cache}
use keyfrog.Process.{ProcessMap, Properties, no_properties}
use keyfrog.Process.Tree.{
  Tree, Outcome, clear, returned, add_process, connect, add_connect_process, add_each,
  add_connect_processes,
}
use keyfrog.Process.Tree.Ordered.{IsOrdered}
use keyfrog.Process.Tree.Descend.{Tells, add_connect_processes-Tells}
use keyfrog.Filter.First.{SameLetters, Chosen}
use keyfrog.Event.{World, ok, is_terminal, is_pid, set_group_id}
use keyfrog.Event.Decide.{or_else}
use keyfrog.Event.Between.{set_group_id_between, set_group_id_between-Tells}
use keyfrog.Event.Told.{NamesDescendant, Asked, set_group_id-Tells}
use keyfrog.Tests.Instances.{bgl, bgl-laws}
use keyfrog.Tests.Filtering.{groups, server, name_fetched, both_fetched, name_is, pid_is}

abbrev proc : ℤ → ℤ → Text → Properties
proc pid ppid name = record no_properties { pid = pid; ppid = ppid; name = name }

-- What is run as the process 100 may be replaced.
abbrev desk_of : Text → ProcessMap
desk_of name =
    (pos 1, proc (pos 1) (pos 0) (text "init"))
    ∷ (pos 100, proc (pos 100) (pos 1) name)
    ∷ (pos 101, proc (pos 101) (pos 100) (text "vim"))
    ∷ []

unlike : (i j : ℤ) → eq_ℤ i j ≡ false → i ≢ j
unlike i j h e = ground (arith, eq_ℤ_iff i j)

alone : (i j : ℤ) → eq_ℤ i j ≡ false → ¬ At i (j ∷ [])
alone i j h m = elim (At-cases m) [ inl same ↦ unlike i j h same | inr n ↦ elim n [ ] ]

desk-IsOrdered : (name : Text) → IsOrdered (desk_of name) (desk_of name) []
unfolding find
desk-IsOrdered name = (
  refl,
  (λ m. elim m [ ]),
  inr refl,
  (
    refl,
    (λ m. alone (pos 100) (pos 1) refl m),
    inl (there here),
    (
      refl,
      (λ m. elim (At-cases m) [
        | inl e ↦ unlike (pos 101) (pos 100) refl e
        | inr n ↦ alone (pos 101) (pos 1) refl n
      ]),
      inl (there here),
      tt,
    ),
  ),
)

abbrev pub desk_tree_of : Text → Tree bgl
desk_tree_of name = elim (add_connect_processes bgl 2 (desk_of name) (clear bgl)) [
  | returned _ t ↦ t
  | _ ↦ clear bgl
]

desk_is_built :
    (name : Text)
    → add_connect_processes bgl 2 (desk_of name) (clear bgl) ≡ returned true (desk_tree_of name)
unfolding add_connect_processes add_each add_connect_process add_process connect find insert
desk_is_built name = refl

tree_of : (r : Outcome bgl) (t u : Tree bgl) → r ≡ returned true t → r ≡ returned true u → t ≡ u
tree_of r t u e e' = ground (arith, e, e')

desk-Tells : (name : Text) → Tells bgl bgl-laws (desk_of name) (desk_tree_of name)
desk-Tells name =
    let desk = desk_of name in
    let (t, e, told) =
      add_connect_processes-Tells bgl bgl-laws desk 0 (desk-IsOrdered name)
        (refl, (refl, (refl, tt))) in
    subst (Tells bgl bgl-laws desk)
      (tree_of (add_connect_processes bgl 2 desk (clear bgl)) t (desk_tree_of name) e
        (desk_is_built name))
      told

abbrev desk : ProcessMap
desk = desk_of (text "xterm")

abbrev pub desk_tree : Tree bgl
desk_tree = desk_tree_of (text "xterm")

-- The editor stays, below a browser in place of the terminal.
abbrev later : ProcessMap
later = desk_of (text "firefox")

abbrev pub desktop : World bgl
desktop = record {
  server = server;
  tree = desk_tree;
  iends_with = λ s t. text_eq s (text "xterm");
  fuel = 3;
}

fits : bgl.num_vertices desk_tree.graph ≤ 3
unfolding add_connect_processes add_each add_connect_process add_process connect find insert
fits = omega arith

set_group_id-Tells_example :
    (inside owned class : ℤ) × (set_group_id bgl desktop groups 12 new_cache
      ≡ ok (
        or_else bgl desktop groups (or_else bgl desktop groups inside owned) class,
        both_fetched,
      ))
    × Asked bgl bgl-laws desk desktop groups
        (is_terminal bgl desktop groups (text "xterm") && is_pid bgl desktop groups (pos 100))
        (Chosen
          (λ g. g.term_procs)
          (NamesDescendant bgl bgl-laws desk desktop groups (pos 100))
          groups)
        inside
    × Asked bgl bgl-laws desk desktop groups
        (is_pid bgl desktop groups (pos 100))
        (Chosen (λ g. g.procs) (λ name. SameLetters name (text "xterm")) groups)
        owned
    × Chosen (λ g. g.window_classes) (λ name. SameLetters name (text "xterm")) groups class
unfolding find
set_group_id-Tells_example =
    set_group_id-Tells bgl bgl-laws desk desktop groups 12 new_cache name_fetched both_fetched
      (text "xterm") (pos 100) (proc (pos 100) (pos 1) (text "xterm")) (desk-Tells (text "xterm"))
      fits name_is pid_is refl (unlike (pos 100) (pos 1) refl)

set_group_id_between-Tells_example :
    (inside owned class : ℤ) × (set_group_id_between bgl desktop groups
        (desk_tree_of (text "firefox"))
        12
        new_cache
      ≡ ok (
        or_else bgl desktop groups (or_else bgl desktop groups inside owned) class,
        both_fetched,
      ))
    × Asked bgl bgl-laws desk desktop groups
        (is_terminal bgl desktop groups (text "xterm") && is_pid bgl desktop groups (pos 100))
        (Chosen
          (λ g. g.term_procs)
          (NamesDescendant bgl bgl-laws desk desktop groups (pos 100))
          groups)
        inside
    × Asked bgl bgl-laws desk desktop groups
        (is_pid bgl desktop groups (pos 100))
        (Chosen (λ g. g.procs) (λ name. SameLetters name (text "firefox")) groups)
        owned
    × Chosen (λ g. g.window_classes) (λ name. SameLetters name (text "xterm")) groups class
unfolding find
set_group_id_between-Tells_example =
    set_group_id_between-Tells bgl bgl-laws desk later desktop groups
      (desk_tree_of (text "firefox")) 12 new_cache name_fetched both_fetched (text "xterm")
      (pos 100) (proc (pos 100) (pos 1) (text "xterm")) (proc (pos 100) (pos 1) (text "firefox"))
      (desk-Tells (text "xterm")) (desk-Tells (text "firefox")) fits name_is pid_is refl refl
      (unlike (pos 100) (pos 1) refl)
