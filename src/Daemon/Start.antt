-- ===== src/Daemon/Start.antt =====
-- The constructor of src/Daemon.cpp, with `createDefaultConfig`, and the threads that it starts.
use keyfrog.Base.{ℕ, Bool, true, false, List, [], ◌∷◌, ◌++◌, Option, none, some, if◌then◌else◌}
use keyfrog.Base.Text.{Text, text}
use keyfrog.Config.{Node, Read, ok, threw, ◌>>=◌, Configuration, new_configuration, read_config}
use keyfrog.Config.OptionSet.{set_daemon_mode}
use keyfrog.Monitor.Connect.{Recorder}
use keyfrog.Storage.Sqlite.Connect.{Answers, Connection, manager_connect}

-- The threads of the program: the one that runs `main`, the storage manager's, and the one that
-- refreshes the process tree.
pub data Thread : Type 0 where
  main_thread committer process_monitor : Thread

-- What the constructor asks of the system: `HOME`, whether the directory for the configuration is
-- there and whether it can be made, the documents that libxml2 reads, and the databases.
pub record System : Type 0 where
  pub home : Option Text
  pub dir_exists : Bool
  pub creates_dir : Bool
  pub document : Text → Option Node
  pub database : Text → Answers

-- What the program keeps from its start on: `Daemon`, the threads of its process, whether the directory
-- for the configuration is there, and the files behind its descriptors.
pub record Program : Type 0 where
  pub threads : List Thread
  pub config_dir : Bool
  pub configuration : Configuration
  pub connection : Connection
  pub x_connected : Bool
  pub recorder : Recorder
  pub descriptors : List (ℕ × Text)

-- `createDefaultConfig`: the answer, and whether the directory is there afterwards.
unfoldable pub create_default_config : System → Bool × Bool
create_default_config system =
    if system.dir_exists
    then (true, true)
    else if system.creates_dir
    then (true, true)
    else (false, false)

-- A connection before `connect`.
abbrev pub unconnected : Connection
unconnected = record {
  uri = [];
  is_open = false;
  unfinalized = 0;
  insert_set = false;
  update_set = false;
  exists_set = false;
}

-- The configuration that is handed to the reader.
abbrev pub prepared : Text → Bool → Configuration
prepared home_dir as_daemon = record new_configuration {
  home_dir = home_dir;
  config_path = home_dir ++ text "/.keyfrog/config";
  options = set_daemon_mode as_daemon new_configuration.options;
}

module _ (system : System) (recorder : Recorder) (descriptors : List (ℕ × Text)) where
  -- The storage: `StorageManager` starts its thread before it connects.
  unfoldable pub open_storage : Text → (config_dir : Bool) → Configuration → Read Program
  open_storage home_dir config_dir configuration =
      let uri = home_dir ++ text "/.keyfrog/keyfrog.db" in
      elim (manager_connect (system.database uri) uri unconnected) [
        | none ↦ threw
        | some (_, connection) ↦ ok (record {
          threads = main_thread ∷ committer ∷ [];
          config_dir = config_dir;
          configuration = configuration;
          connection = connection;
          x_connected = false;
          recorder = recorder;
          descriptors = descriptors;
        })
      ]

  -- `Daemon(asDaemon)`, in a process with its main thread. The answer of `createDefaultConfig` is not
  -- looked at. The objects that it makes without a step of their own, and the colours, are left out.
  unfoldable pub new_daemon : Bool → Read Program
  unfolding open_storage create_default_config
  new_daemon as_daemon = elim system.home [
    | none ↦ threw
    | some home_dir ↦ do
      let start = prepared home_dir as_daemon
      configuration ← read_config (system.document start.config_path) start
      open_storage home_dir (create_default_config system).1 configuration
  ]
