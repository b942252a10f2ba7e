-- ===== src/Tests/Refreshing.antt =====
-- The process monitor over /proc and over the rounds of sysctl.
use keyfrog.Base.{
  pos, ◌≡◌, refl, inl, inr, true, [], ◌∷◌, ◌++◌, none, some, if◌then◌else◌, arith, At, here, there,
}
use keyfrog.Base.Set.{At-cases}
use keyfrog.Base.Key.{int_key}
use keyfrog.Base.Text.{text_eq, text}
use keyfrog.Base.Map.{find, insert}
use keyfrog.Process.Tree.{Tree, clear}
use keyfrog.Process.Tree.Descend.{Tells}
use keyfrog.Process.Linux.{
  LexicalCast, ProcFs, enumerate, set_process_properties, try_properties, try_name, try_parent,
  parent_of, inner, read_word, skip_spaces, split_word,
}
use keyfrog.Process.Mac as Mac
use keyfrog.Process.Manager.Systems.{
  linux_manager, linux_manager_laws, mac_manager, mac_manager_laws,
}
use keyfrog.Process.Refresh.{ShowsOrderly, event_loop, event_loop_lem}
use keyfrog.Tests.Instances.{bgl, bgl-laws}
use keyfrog.Tests.Systems.{grown, listed, proc_pidpath, cast, grown-HasGrown, listed-IsWritten}

-- A /proc with one process and a directory that is none.
abbrev pub numbers : LexicalCast
numbers = record {
  to_int = λ s.
      if text_eq s (text "1")
      then some (pos 1)
      else if text_eq s (text "0")
      then some (pos 0)
      else none;
  to_text = λ i. text "1";
}

abbrev pub one_proc : ProcFs
one_proc = record {
  entries = (text "self", true) ∷ (text "1", true) ∷ [];
  stat = λ s. some (text "1 (init) S 0 1 1");
}

abbrev no_proc : ProcFs
no_proc = record { entries = []; stat = λ s. none }

one_proc-ShowsOrderly :
    ShowsOrderly bgl (linux_manager numbers bgl) (linux_manager_laws numbers bgl) one_proc
unfolding linux_manager_laws enumerate set_process_properties try_properties try_name try_parent
    parent_of inner read_word skip_spaces split_word find insert
one_proc-ShowsOrderly = (_, refl, ((refl, (λ m. elim m [ ]), inr refl, tt), (refl, tt)))

no_proc-ShowsOrderly :
    ShowsOrderly bgl (linux_manager numbers bgl) (linux_manager_laws numbers bgl) no_proc
unfolding linux_manager_laws enumerate find
no_proc-ShowsOrderly = ([], refl, (tt, tt))

event_loop_lem_example :
    (t : Tree bgl) × (event_loop bgl
        (linux_manager numbers bgl)
        2
        ((no_proc ∷ []) ++ (one_proc ∷ []))
        (clear bgl)
      ≡ some t)
    × Tells bgl bgl-laws one_proc-ShowsOrderly.0 t
event_loop_lem_example =
    event_loop_lem bgl (linux_manager numbers bgl) (linux_manager_laws numbers bgl) bgl-laws 0
      (no_proc ∷ []) one_proc one_proc-ShowsOrderly.0 (clear bgl) (no_proc-ShowsOrderly, tt)
      one_proc-ShowsOrderly.1 one_proc-ShowsOrderly.2

alone : At (pos 42) (pos 1 ∷ []) → ⊥
alone m = elim (At-cases m) [
  | inl e ↦ absurd (ground (arith, e))
  | inr none_left ↦ elim none_left [ ]
]

mac_shown :
    ShowsOrderly bgl
      (mac_manager cast bgl proc_pidpath 648)
      (mac_manager_laws cast bgl proc_pidpath 648 (omega arith))
      (grown ∷ listed ∷ [])
unfolding mac_manager_laws Mac.enumerate Mac.set_process_properties Mac.set_name Mac.base_name
    Mac.find_last_of insert find
mac_shown = (
  _,
  (grown ∷ [], [], listed, refl, grown-HasGrown, listed-IsWritten, refl),
  ((refl, (λ m. elim m [ ]), inr refl, (refl, alone, inl (there here), tt)), (refl, (refl, tt))),
)

-- The same monitor over the rounds of sysctl on Mac OS X.
mac_refreshes :
    (t : Tree bgl) × (event_loop bgl
        (mac_manager cast bgl proc_pidpath 648)
        3
        ((grown ∷ listed ∷ []) ∷ [])
        (clear bgl)
      ≡ some t)
    × Tells bgl bgl-laws mac_shown.0 t
mac_refreshes =
    event_loop_lem bgl (mac_manager cast bgl proc_pidpath 648)
      (mac_manager_laws cast bgl proc_pidpath 648 (omega arith)) bgl-laws 1 [] (grown ∷ listed ∷ [])
      mac_shown.0 (clear bgl) tt mac_shown.1 mac_shown.2
