-- ===== src/Tests/Running.antt =====
-- The daemon in the foreground: a key and the end of its window, and turns of the three threads.
use keyfrog.Base.{
  false, false, ℕ, ℤ, pos, ◌+ℤ◌, ◌≡◌, refl, inr, true, List, [], ◌∷◌, some, none, All, arith,
  replicate, length, ◌≤◌,
}
use keyfrog.Base.Text.{Text, text, show_int}
use keyfrog.Base.Decimal.{atoi}
use keyfrog.Base.Map.{find, insert}
use keyfrog.Config.{Node, node, element, end, cons, process_sections, read_config}
use keyfrog.Config.RoundTrip.{render, groups_of, names_of}
use keyfrog.ErrorHandler.{init_handler}
use keyfrog.Base.Set.{set_insert}
use keyfrog.Storage.Sqlite.{stored}
use keyfrog.Storage.Sqlite.Connect.{manager_connect}
use keyfrog.Storage.Backend.{sqlite_storage}
use keyfrog.Storage.Manager.{Manager}
use keyfrog.Storage.Manager.Conserve.{run}
use keyfrog.Storage.Manager.Conserve as Conserve
use keyfrog.Window.{resolve_client_pid_loop, hint_name, resolve_class_name, resolve_client_pid}
use keyfrog.Process.Tree.{
  returned, clear, Tree, fetch_descendants, fetch_name, add_connect_processes, add_connect_process,
  add_process, add_each, connect,
}
use keyfrog.Process.Linux.{
  ProcFs, enumerate, set_process_properties, try_properties, try_name, try_parent, parent_of, inner,
  read_word, skip_spaces, split_word,
}
use keyfrog.Process.Manager.Systems.{linux_manager, linux_manager_laws}
use keyfrog.Common.{string_eq_ci}
use keyfrog.Filter.{
  match_term_proc, names_one, add_group, add_window_class, add_terminal_process, match_proc,
  match_window_class,
}
use keyfrog.Monitor.{Intercept}
use keyfrog.Monitor.Callback.{fresh, rounds}
use keyfrog.Monitor.Connect.{find_text, apply_fix, setup_record_extension, start}
use keyfrog.Monitor.Connect as Connect
use keyfrog.Event.{Event, ok, is_terminal, is_pid}
use keyfrog.Event.Decide.{decide}
use keyfrog.Event.Labels.{group_of, Labels}
use keyfrog.Event.Recorded.{IsDelivered}
use keyfrog.Daemon.Start.{
  open_storage, prepared, System, Program, main_thread, committer, process_monitor, new_daemon,
  create_default_config,
}
use keyfrog.Daemon.Launch.{run_connected, run_start, connect_xserver, Arguments, main, daemonize}
use keyfrog.Daemon.Launch as Launch
use keyfrog.Daemon.Threads.{threads_of}
use keyfrog.Daemon.Counts.{counted}
use keyfrog.Daemon.Loop.{Turn, goes_round, commits, refreshes, Running, take_turns}
use keyfrog.Daemon.Loop.Sound.{IsSteady}
use keyfrog.Daemon.Loop.Upcoming.{events_of}
use keyfrog.Daemon.Loop.Counts.{stamped, count_rounds}
use keyfrog.Daemon.Loop.Records.{begun, main_records}
use keyfrog.Tests.Instances.{
  boost, boost-laws, sqlite, sqlite-laws, updates_finish, inserts_finish, bgl,
}
use keyfrog.Tests.Monitoring.{recorded}
use keyfrog.Tests.Storing.{three}
use keyfrog.Tests.Starting.{new_recorder, system, host, terminal, running}
use keyfrog.Tests.Desktop.{desktop}
use keyfrog.Tests.Labelling.{sections, label, labelled, desktop-Labels, numbers, desk_fs}
use keyfrog.Process.{no_properties, Properties, ProcessMap}

abbrev grouped : Node
grouped =
    node element (some (text "keyfrog")) (λ name. none) none
      (cons (node element (some (text "application-groups")) (λ name. none) none (render sections))
        end)

abbrev configured : System
configured = record system { document = λ path. some grouped }

abbrev foreground : Arguments
foreground = record { help = false; nb = true; display = none }

abbrev launched : Program
launched = record running {
  threads = main_thread ∷ committer ∷ process_monitor ∷ [];
  configuration = record (prepared (text "/home/ann") false) { filter_config = groups_of sections };
  descriptors = terminal;
}

launches : main configured new_recorder terminal host foreground ≡ Launch.ok launched
unfolding main new_daemon open_storage create_default_config read_config process_sections run_start
    run_connected connect_xserver Connect.connect start setup_record_extension apply_fix find_text
    init_handler manager_connect render groups_of names_of add_group add_window_class
    add_terminal_process atoi show_int
launches = refl

-- A key, its repetition and another key in one round, and the end of the window in the next.
abbrev arriving : List (List Intercept)
arriving = (recorded 2 38 ∷ recorded 2 38 ∷ recorded 2 39 ∷ []) ∷ (recorded 17 0 ∷ []) ∷ []

arriving-IsDelivered : All (IsDelivered launched.recorder) (rounds arriving)
unfolding rounds
arriving-IsDelivered = (inr refl, (inr refl, (inr refl, (inr refl, tt))))

abbrev turns : List (Turn ProcFs)
turns =
    commits
    ∷ goes_round (pos 1000)
    ∷ commits
    ∷ refreshes desk_fs
    ∷ goes_round (pos 1001)
    ∷ goes_round (pos 1900)
    ∷ []

-- The process monitor finds the same processes in /proc.
abbrev found : ℤ → Text → ℤ → Text → Text → Properties
found pid pid_str ppid ppid_str name = record no_properties {
  pid = pid;
  pid_str = pid_str;
  ppid = ppid;
  ppid_str = ppid_str;
  ppid_known = true;
  name = name;
  name_known = true;
}

abbrev shown : ProcessMap
shown =
    (pos 1, found (pos 1) (text "1") (pos 0) (text "0") (text "init"))
    ∷ (pos 100, found (pos 100) (text "100") (pos 1) (text "1") (text "xterm"))
    ∷ (pos 101, found (pos 101) (text "101") (pos 100) (text "100") (text "vim"))
    ∷ []

shown-Shows : (linux_manager_laws numbers bgl).Shows desk_fs shown
unfolding linux_manager_laws enumerate set_process_properties try_properties try_name try_parent
    parent_of inner read_word skip_spaces split_word find insert show_int atoi
shown-Shows = refl

abbrev built : Tree bgl
built = elim (add_connect_processes bgl 3 shown (clear bgl)) [ returned _ t ↦ t | _ ↦ clear bgl ]

is_built : add_connect_processes bgl 3 shown (clear bgl) ≡ returned true built
unfolding add_connect_processes add_each add_connect_process add_process connect find insert
is_built = refl

built-Labels : Labels bgl (record desktop { tree = built }) (groups_of sections) label
unfolding group_of resolve_class_name resolve_client_pid resolve_client_pid_loop hint_name
    fetch_descendants fetch_name find decide is_terminal is_pid match_proc match_term_proc names_one
    string_eq_ci match_window_class groups_of names_of set_insert add_connect_processes
    add_connect_process add_process add_each connect insert
built-Labels = labelled built refl refl

turns-IsSteady :
    All
      (IsSteady bgl
        (linux_manager numbers bgl)
        (linux_manager_laws numbers bgl)
        desktop
        launched.configuration.filter_config
        label)
      turns
turns-IsSteady =
    (tt, (tt, (tt, ((shown, true, built, shown-Shows, is_built, built-Labels), (tt, (tt, tt))))))

abbrev events : List Event
events =
    events_of bgl desktop launched.configuration.filter_config host.debug label 0 (rounds arriving)

fits : count_rounds turns ≤ length events
unfolding count_rounds rounds fresh
fits = omega arith

main_records_example :
    (launched.threads ≡ threads_of false)
    × ((s : Running boost (sqlite_storage sqlite) bgl) × (take_turns boost
            (sqlite_storage sqlite)
            bgl
            (linux_manager numbers bgl)
            desktop
            launched.configuration.filter_config
            host.debug
            turns
            (begun boost boost-laws sqlite sqlite-laws bgl desktop three arriving)
          ≡ ok s)
        × ((n : ℕ) × (m : Manager boost (sqlite_storage sqlite)) × (run boost
                (sqlite_storage sqlite)
                (replicate n Conserve.commits)
                s.state.manager
              ≡ some m)
            × (m.cache ≡ [])
            × (m.localcache ≡ [])
            × (stored sqlite m.backend (pos 900) (pos 7)
                ≡ stored sqlite three (pos 900) (pos 7)
                  +ℤ counted boost
                      (sqlite_storage sqlite)
                      (stamped turns events)
                      (pos 900)
                      (pos 7))))
main_records_example =
    main_records boost boost-laws sqlite sqlite-laws bgl (linux_manager numbers bgl)
      (linux_manager_laws numbers bgl) desktop label configured new_recorder terminal host
      foreground launched arriving turns three (pos 900) (pos 7) updates_finish inserts_finish
      launches refl desktop-Labels arriving-IsDelivered turns-IsSteady fits refl
