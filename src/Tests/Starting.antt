-- ===== src/Tests/Starting.antt =====
-- The start of the daemon on a server that answers, and what it then records.
use keyfrog.Base.{
  arith, ℕ, pos, ◌≡◌, refl, true, false, List, [], ◌∷◌, none, some, All, here, ◌&&◌, ◌||◌, ◌==◌,
}
use keyfrog.Base.Text.{text}
use keyfrog.Base.Key.{nat_key}
use keyfrog.Base.Map.{erase, insert, find}
use keyfrog.Config.{Node, node, element, end, process_sections, read_config}
use keyfrog.ErrorHandler.{error_handler1, foreign, init_handler}
use keyfrog.Monitor.{Intercept, key_press, destroy_notify}
use keyfrog.Monitor.Callback.{raw}
use keyfrog.Monitor.Connect.{
  find_text, apply_fix, setup_record_extension, Server, Recorder, connect, start,
}
use keyfrog.Monitor.Mac as Mac
use keyfrog.Monitor.Mac.{EventMonitorMac, connect-next_event}
use keyfrog.Tests.Monitoring.{recorded}
use keyfrog.Monitor.Recorded.{delivers, delivers-connect}
use keyfrog.Storage.Sqlite.Connect.{manager_connect}
use keyfrog.Storage.Manager.Conserve.{Action, pressed, run}
use keyfrog.Storage.Manager.{Manager}
use keyfrog.Daemon.Start.{
  open_storage, prepared, System, Program, main_thread, process_monitor, new_daemon,
  create_default_config,
}
use keyfrog.Daemon.Launch.{
  run_connected, run_start, connect_xserver, daemonize, open_files, dup2, close_above,
  run_connected, close_above, dup2, open_files, run_start, ok, Host, child, Descriptors, Arguments,
  redirect, main, daemonize,
}
use keyfrog.Daemon.Background.{CanRun, main_unrecorded}
use keyfrog.Daemon.Descriptors.{find-redirect}
use keyfrog.Tests.Instances.{boost, sqlite}
use keyfrog.Tests.Storing.{quiet}
use keyfrog.Storage.Backend.{sqlite_storage}

abbrev pub answering : Server
answering = record {
  opens_ctrl = true;
  opens_data = true;
  has_record = true;
  allocates_first = true;
  allocates_second = true;
  vendor = some (text "The X.Org Foundation");
  release = pos 12101004;
  creates_context = true;
  enables = true;
  disables = true;
}

abbrev pub new_recorder : Recorder
new_recorder = record {
  display_name = [];
  ctrl_display = false;
  data_display = false;
  rec_ranges = [];
  rec_context = false;
  enabled = false;
  handlers = record { installed = foreign 1; saved = none };
}

abbrev pub connected : Recorder
connected = record {
  display_name = text ":0";
  ctrl_display = true;
  data_display = true;
  rec_ranges =
      record { delivered_events = (2, 2); errors = (0, 0) }
      ∷ record { delivered_events = (17, 17); errors = (0, 0) }
      ∷ [];
  rec_context = true;
  enabled = false;
  handlers = record { installed = error_handler1; saved = some (foreign 1) };
}

pub connects : connect answering (text ":0") new_recorder ≡ some (true, connected)
unfolding connect setup_record_extension apply_fix find_text init_handler
connects = refl

delivers-connect_example :
    (connected.ctrl_display ≡ true)
    × (true ≡ answering.opens_ctrl && answering.opens_data)
    × ((connected.data_display ≡ true)
        × (connected.rec_context ≡ true)
        × ((type : ℕ)
            → delivers connected.rec_ranges type ≡ (type == key_press || type == destroy_notify))
        × (connected.handlers ≡ init_handler 1 new_recorder.handlers))
delivers-connect_example =
    delivers-connect answering (text ":0") new_recorder connected true connects

-- The home of a user with an empty configuration.
abbrev empty_file : Node
empty_file = node element (some (text "keyfrog")) (λ name. none) none end

abbrev pub system : System
system = record {
  home = some (text "/home/ann");
  dir_exists = true;
  creates_dir = true;
  document = λ path. some empty_file;
  database = λ uri. record {
    opens = true;
    schema = true;
    prepares_insert = true;
    prepares_update = true;
    prepares_exists = true;
    closes = λ n. n == 0;
  };
}

abbrev pub host : Host
host = record {
  fork = child;
  debug = false;
  opens_err = none;
  opens_out = none;
  opens_null = some 7;
  servers = answering ∷ [];
}

abbrev plain : Arguments
plain = record { help = false; nb = false; display = none }

abbrev pub terminal : Descriptors
terminal = (0, text "/dev/tty1") ∷ (1, text "/dev/tty1") ∷ (2, text "/dev/tty1") ∷ []

abbrev silenced : Descriptors
silenced = (0, text "/dev/null") ∷ (1, text "/dev/null") ∷ (2, text "/dev/null") ∷ []

abbrev pub running : Program
running = record {
  threads = main_thread ∷ process_monitor ∷ [];
  config_dir = true;
  configuration = prepared (text "/home/ann") true;
  connection = record {
    uri = text "/home/ann/.keyfrog/keyfrog.db";
    is_open = true;
    unfinalized = 3;
    insert_set = true;
    update_set = true;
    exists_set = true;
  };
  x_connected = true;
  recorder = record connected { enabled = true };
  descriptors = silenced;
}

launches : main system new_recorder terminal host plain ≡ ok running
unfolding main new_daemon open_storage create_default_config read_config process_sections run_start
    daemonize open_files redirect dup2 close_above run_connected connect_xserver connect start
    setup_record_extension apply_fix find_text init_handler insert erase find manager_connect
launches = refl

-- Three presses of one group, with no step of a committer that is gone.
abbrev presses : List Action
presses = pressed (pos 7) (pos 1000) (pos 1) ∷ pressed (pos 7) (pos 1001) (pos 1) ∷ []

presses_run : All (CanRun running.threads) presses
presses_run = (here, (here, tt))

main_unrecorded_example :
    (m' : Manager boost (sqlite_storage sqlite)) × (run boost (sqlite_storage sqlite) presses quiet
      ≡ some m')
    × (m'.backend ≡ quiet.backend)
main_unrecorded_example =
    main_unrecorded system new_recorder terminal host plain running boost (sqlite_storage sqlite)
      presses quiet launches refl presses_run

-- A debug build, whose files got the descriptors 7 and 8.
abbrev opened : Descriptors
opened = (7, text "/tmp/kf.err") ∷ (8, text "/tmp/kf.out") ∷ terminal

opened_err : find 7 opened ≡ some (text "/tmp/kf.err")
unfolding find
opened_err = refl

opened_out : find 8 opened ≡ some (text "/tmp/kf.out")
unfolding find
opened_out = refl

find-redirect_example : find 2 (redirect 7 8 opened) ≡ some (text "/tmp/kf.err")
find-redirect_example =
    find-redirect 7 8 2 opened (text "/tmp/kf.err") (text "/tmp/kf.out") opened_err opened_out
      (omega arith) (omega arith)

-- The tap of Mac OS X.
abbrev tapped_key : Intercept
tapped_key = recorded 2 38

abbrev tapped : EventMonitorMac
tapped = record { events = []; event_tap = true; run_loop_source = true; enabled = false }

taps : Mac.connect true Mac.new_monitor ≡ (true, tapped)
unfolding Mac.connect Mac.setup_event_tap
taps = refl

connect-next_event_example :
    Mac.next_event ((raw tapped_key ∷ []) ∷ [] ∷ []) (Mac.start tapped) ≡ none
connect-next_event_example = connect-next_event true tapped ((raw tapped_key ∷ []) ∷ [] ∷ []) taps
