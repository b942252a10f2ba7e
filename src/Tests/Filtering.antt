-- ===== src/Tests/Filtering.antt =====
-- Matching: a terminal with an editor in it, over a process tree of two.
use keyfrog.Base.{
  ℕ, ℤ, pos, ◌≡◌, ◌↔◌, refl, true, false, List, [], ◌∷◌, none, some, map, ◌==◌, if◌then◌else◌,
}
use keyfrog.Base.Text.{Text, text, text_eq}
use keyfrog.Base.Set.{set_insert}
use keyfrog.Base.Map.{find, insert}
use keyfrog.Common.{tolower, string_eq_ci}
use keyfrog.Common.Caseless.{string_eq_ci_iff}
use keyfrog.Window.Server.{XServer}
use keyfrog.Window.{
  KfWindow, KfWindowCache, new_cache, at, find_and_use_window, fetch_class_name, fetch_client_pid,
}
use keyfrog.Process.{Properties, no_properties}
use keyfrog.Process.Tree.{Tree, ProcSet, fetch_descendants}
use keyfrog.Filter.{Group, FilterConfig, match_term_proc}
use keyfrog.Filter.First.{Chosen, SameLetters, Some, match_term_proc-Chosen}
use keyfrog.Monitor.{RawEvent}
use keyfrog.Event.{World, ok, Event, kf_key_press, kf_destroy_notify, set_group_id, process_events}
use keyfrog.Tests.Instances.{bgl}

abbrev editing : Group
editing = record {
  id = pos 7;
  window_classes = text "Gvim" ∷ [];
  term_procs = text "VIM" ∷ [];
  procs = text "gvim" ∷ [];
}

abbrev browsing : Group
browsing = record {
  id = pos 3;
  window_classes = text "Firefox" ∷ text "gvim" ∷ [];
  term_procs = [];
  procs = text "firefox" ∷ [];
}

abbrev pub groups : FilterConfig
groups = browsing ∷ editing ∷ []

string_eq_ci_iff_example :
    (string_eq_ci (text "Vim") (text "vIM") ≡ true)
    ↔ (map tolower (text "Vim") ≡ map tolower (text "vIM"))
string_eq_ci_iff_example = string_eq_ci_iff (text "Vim") (text "vIM")

-- The processes below the terminal.
abbrev vim : ProcSet
vim = (pos 101, text "vim") ∷ []

match_term_proc-Chosen_example :
    Chosen
      (λ g. g.term_procs)
      (λ name. Some (λ (e : ℤ × Text). SameLetters name e.1) vim)
      groups
      (match_term_proc groups vim)
match_term_proc-Chosen_example = match_term_proc-Chosen groups vim

-- A terminal of pid 100, whose window is 12, and its child of pid 101.
abbrev pub named : ℤ → Text → Properties
named pid name = record no_properties { pid = pid; name = name }

abbrev pub tree : Tree bgl
tree = record {
  graph = record {
    size = 2;
    properties =
        λ v. if v == 0 then named (pos 100) (text "xterm") else named (pos 101) (text "vim");
    edges = λ v. if v == 0 then 1 ∷ [] else [];
  };
  ids = (pos 100, 0) ∷ (pos 101, 1) ∷ [];
}

abbrev pub server : XServer
server = record {
  class_hint = λ w.
      if w == 12 then some (record { res_name = none; res_class = some (text "xterm") }) else none;
  query_tree = λ w. if w == 13 then some (1, 12) else none;
  has_pid_atom = true;
  net_wm_pid = λ w. if w == 12 then some (pos 100) else none;
}

abbrev pub world : World bgl
world = record {
  server = server;
  tree = tree;
  iends_with = λ s t. text_eq s (text "xterm");
  fuel = 3;
}

-- The entry of the terminal's window, as its class and its pid are fetched.
abbrev info : KfWindow
info = record {
  class_name = text "xterm";
  class_name_ok = true;
  client_pid = pos 0;
  client_pid_ok = false;
}

abbrev with_info : KfWindow → KfWindowCache
with_info i = record { windows = (12, i) ∷ []; current = at 12 }

abbrev pub name_fetched : KfWindowCache
name_fetched = with_info info

abbrev pub both_fetched : KfWindowCache
both_fetched = with_info (record info { client_pid = pos 100; client_pid_ok = true })

pub name_is :
    fetch_class_name server 3 (find_and_use_window 12 new_cache) ≡ some (text "xterm", name_fetched)
unfolding fetch_class_name find_and_use_window find insert
name_is = refl

pub pid_is : fetch_client_pid server 3 name_fetched ≡ some (pos 100, both_fetched)
unfolding fetch_client_pid find insert
pid_is = refl

below : fetch_descendants bgl 3 (pos 100) tree ≡ some vim
unfolding fetch_descendants find set_insert
below = refl

-- A key press in the terminal, and the end of its window.
abbrev of_window : ℕ → ℕ → RawEvent
of_window type w = record {
  datum = record { type = type; detail = 38; pointer_window = w; destroyed_window = w };
  time = pos 1000;
}

abbrev raws : List RawEvent
raws = of_window 2 12 ∷ of_window 17 12 ∷ []

abbrev converted : List Event
converted =
    record {
      dest_win = some 12;
      group_id = some (pos 7);
      time = pos 1000;
      type = some kf_key_press;
    }
    ∷ record { dest_win = some 12; group_id = none; time = pos 1000; type = some kf_destroy_notify }
    ∷ []

raws_convert : process_events bgl world groups true raws new_cache ≡ ok (converted, both_fetched)
unfolding process_events set_group_id fetch_class_name find insert fetch_client_pid
    fetch_descendants match_term_proc set_insert string_eq_ci
raws_convert = refl
