-- ===== src/Tests/Labelling.antt =====
-- Which group a window has on a desktop of Linux with a terminal, and what the X server records there.
use keyfrog.Base.{
  ◌==◌, ◌||◌, ℕ, ℤ, pos, ◌≡◌, refl, sym, true, false, inl, inr, ==_iff, subst, arith, Bool-cases,
  List, [], ◌∷◌, some, none, map, All, if◌then◌else◌,
}
use keyfrog.Base.Text.{text, text_eq, show_int}
use keyfrog.Base.Decimal.{atoi}
use keyfrog.Base.Map.{find, insert}
use keyfrog.Base.Set.{set_insert}
use keyfrog.Common.{string_eq_ci}
use keyfrog.Config.RoundTrip.{
  window_class_name, terminal_process_name, Section, group, groups_of, names_of,
}
use keyfrog.Window.{
  KfWindowCache, new_cache, resolve_class_name, resolve_client_pid, resolve_client_pid_loop,
  hint_name,
}
use keyfrog.Window.Honest.{IsHonest, new_cache-IsHonest}
use keyfrog.Process.Tree.{
  Tree, fetch_descendants, fetch_name, add_connect_processes, add_connect_process, add_process,
  add_each, connect,
}
use keyfrog.Process.Linux.{LexicalCast, ProcFs}
use keyfrog.Filter.{
  FilterConfig, no_group, match_term_proc, names_one, match_proc, match_window_class,
}
use keyfrog.Monitor.{Intercept, process_replies, new_monitor}
use keyfrog.Monitor.Callback.{raw, fresh}
use keyfrog.Event.{World, ok, is_terminal, is_pid, process_events}
use keyfrog.Event.Decide.{decide}
use keyfrog.Event.Labels.{group_of, Labels, event_of}
use keyfrog.Event.Recorded.{IsDelivered, process_events-connect}
use keyfrog.Tests.Instances.{bgl}
use keyfrog.Tests.Filtering.{server}
use keyfrog.Tests.Monitoring.{recorded}
use keyfrog.Tests.Starting.{answering, new_recorder, connected, connects}
use keyfrog.Tests.Desktop.{desktop}

-- A configuration with a group by class, and one by what runs in a terminal.
abbrev pub sections : List Section
sections =
    group (pos 3) (window_class_name (text "Firefox") ∷ [])
    ∷ group (pos 7) (terminal_process_name (text "VIM") ∷ [])
    ∷ []

abbrev config : FilterConfig
config = groups_of sections

abbrev on : Tree bgl → World bgl
on tree = record desktop { tree = tree }

-- An editor runs in the terminal of window 12, and window 13 lies in it. No other number is a window.
abbrev pub label : ℕ → ℤ
label w = if w == 12 || w == 13 then pos 7 else no_group

nameless : (w : ℕ) → (w == 12) ≡ false → (w == 13) ≡ false → resolve_class_name server 3 w ≡ some []
unfolding resolve_class_name
nameless w h h' = ground (arith, h, h')

ownerless :
    (w : ℕ) → (w == 12) ≡ false → (w == 13) ≡ false → resolve_client_pid server 3 w ≡ some (pos 0)
unfolding resolve_client_pid resolve_client_pid_loop
ownerless w h h' = ground (arith, h, h')

no_window :
    (tree : Tree bgl) (w : ℕ)
    → (w == 12) ≡ false
    → (w == 13) ≡ false
    → group_of bgl (on tree) config w ≡ some no_group
unfolding group_of decide is_terminal is_pid match_window_class string_eq_ci groups_of names_of
no_window tree w h h' = rw (group_of, nameless w h h', ownerless w h h') refl

pub labelled :
    (tree : Tree bgl)
    → group_of bgl (on tree) config 12 ≡ some (pos 7)
    → group_of bgl (on tree) config 13 ≡ some (pos 7)
    → Labels bgl (on tree) config label
labelled tree twelve thirteen w = elim (Bool-cases (w == 12)) [
  | inl same ↦
      subst (λ (v : ℕ). group_of bgl (on tree) config v ≡ some (label v))
        (sym ((==_iff w 12).0 same)) twelve
  | inr other ↦ elim (Bool-cases (w == 13)) [
    | inl same ↦
        subst (λ (v : ℕ). group_of bgl (on tree) config v ≡ some (label v))
          (sym ((==_iff w 13).0 same)) thirteen
    | inr more ↦ rw (other, more) (no_window tree w other more)
  ]
]

pub desktop-Labels : Labels bgl desktop config label
unfolding group_of resolve_class_name resolve_client_pid resolve_client_pid_loop hint_name
    fetch_descendants fetch_name find decide is_terminal is_pid match_proc match_term_proc names_one
    string_eq_ci match_window_class groups_of names_of set_insert add_connect_processes
    add_connect_process add_process add_each connect insert
desktop-Labels = labelled desktop.tree refl refl

-- A key, its repetition, and the end of the window.
abbrev hooks : List Intercept
hooks = recorded 2 38 ∷ recorded 2 38 ∷ recorded 17 0 ∷ []

hooks-IsDelivered : All (IsDelivered connected) hooks
hooks-IsDelivered = (inr refl, (inr refl, (inr refl, tt)))

process_events-connect_example :
    (after : KfWindowCache) × (process_events bgl desktop config true
        (process_replies hooks new_monitor).events
        new_cache
      ≡ ok (map (event_of bgl desktop config label) (map raw (fresh 0 hooks)), after))
    × IsHonest server 3 after
process_events-connect_example =
    process_events-connect bgl desktop config label answering (text ":0") new_recorder connected
      hooks true new_cache connects hooks-IsDelivered desktop-Labels (new_cache-IsHonest server 3)

-- The same desktop in /proc.
abbrev pub numbers : LexicalCast
numbers = record {
  to_int = λ s. if text_eq s (text "self") then none else some (atoi s);
  to_text = show_int;
}

abbrev pub desk_fs : ProcFs
desk_fs = record {
  entries =
      (text "1", true)
      ∷ (text "100", true)
      ∷ (text "101", true)
      ∷ (text "self", true)
      ∷ (text "version", false)
      ∷ [];
  stat = λ s.
      if text_eq s (text "1")
      then some (text "1 (init) S 0 1 1")
      else if text_eq s (text "100")
      then some (text "100 (xterm) S 1 100 100")
      else if text_eq s (text "101")
      then some (text "101 (vim) S 100 101 100")
      else none;
}
