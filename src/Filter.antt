-- ===== src/Filter.antt =====
-- src/Group.h, src/FilterConfig.h and the matching of src/EventFilter.cpp.
pub mod First
use keyfrog.Base.{ℤ, negsuc, ◌≡◌, Bool, true, false, List, [], ◌∷◌, ◌++◌, if◌then◌else◌}
use keyfrog.Base.Text.{Text}
use keyfrog.Common.{string_eq_ci}
use keyfrog.Process.Tree.{ProcSet}

-- `Group`
pub record Group : Type 0 where
  pub id : ℤ
  pub window_classes : List Text
  pub term_procs : List Text
  pub procs : List Text

-- `Group()` and `setId`, the id being unset until then
abbrev pub new_group : ℤ → Group
new_group id = record { id = id; window_classes = []; term_procs = []; procs = [] }

unfoldable pub add_window_class : Text → Group → Group
add_window_class c g = record g { window_classes = g.window_classes ++ c ∷ [] }

unfoldable pub add_terminal_process : Text → Group → Group
add_terminal_process p g = record g { term_procs = g.term_procs ++ p ∷ [] }

unfoldable pub add_process : Text → Group → Group
add_process p g = record g { procs = g.procs ++ p ∷ [] }

-- `FilterConfig`
abbrev pub FilterConfig : Type 0
FilterConfig = List Group

unfoldable pub add_group : Group → FilterConfig → FilterConfig
add_group g config = config ++ g ∷ []

-- The group id that stands for no match.
abbrev pub no_group : ℤ
no_group = negsuc 0

-- A loop over the names of one group that breaks at a match.
unfoldable pub any_name : (Text → Bool) → List Text → Bool
any_name hit [] = false
any_name hit (name ∷ rest) = if hit name then true else any_name hit rest

-- The two nested loops that the three matchers share: over all groups, and over the names that a
-- group lists, up to the first match.
unfoldable pub first_group : (Group → List Text) → (Text → Bool) → List Group → ℤ
unfolding any_name
first_group names hit [] = no_group
first_group names hit (g ∷ rest) =
    if any_name hit (names g) then g.id else first_group names hit rest

-- `matchWindowClass`
unfoldable pub match_window_class : FilterConfig → Text → ℤ
unfolding first_group
match_window_class groups class_name =
    first_group (λ g. g.window_classes) (λ class. string_eq_ci class class_name) groups

-- `matchProc`, with the name that `fetchName` gives for the pid
unfoldable pub match_proc : FilterConfig → Text → ℤ
unfolding first_group
match_proc groups proc_name =
    first_group (λ g. g.procs) (λ proc. string_eq_ci proc proc_name) groups

-- The innermost loop of `matchTermProc`: does one of the processes have this name?
unfoldable pub names_one : ProcSet → Text → Bool
names_one [] name = false
names_one ((_, proc) ∷ rest) name = if string_eq_ci name proc then true else names_one rest name

-- `matchTermProc`, with the set that `fetchDescendants` gives for the pid
unfoldable pub match_term_proc : FilterConfig → ProcSet → ℤ
unfolding first_group names_one
match_term_proc groups dprocs = first_group (λ g. g.term_procs) (names_one dprocs) groups
