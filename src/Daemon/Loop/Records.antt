-- ===== src/Daemon/Loop/Records.antt =====
-- From what the X server records to the rows of the database, whatever the order of the threads.
use keyfrog.Base.{
  not, false, map, ℕ, ℤ, ◌+ℤ◌, ◌≡◌, refl, ap, ◌∙◌, Bool, true, List, [], ◌∷◌, none, some, eq_ℤ, All,
  length, ◌≤◌, replicate,
}
use keyfrog.Storage.{Storage}
use keyfrog.Storage.Sqlite.{Sqlite, SqliteLaws, stored}
use keyfrog.Storage.Sqlite.Adds.{add_key_press_succeeds}
use keyfrog.Storage.Backend.{sqlite_storage, sqlite_storage_laws}
use keyfrog.Storage.Manager.{Boost, BoostLaws, Manager}
use keyfrog.Storage.Manager.Conserve.{commits, run}
use keyfrog.Window.{new_cache}
use keyfrog.Window.Honest.{new_cache-IsHonest}
use keyfrog.Process.Graph.{Bgl}
use keyfrog.Filter.{FilterConfig, no_group}
use keyfrog.Monitor.{Intercept, RawEvent, new_monitor}
use keyfrog.Monitor.Callback.{raw, fresh, rounds}
use keyfrog.Monitor.Connect.{Recorder}
use keyfrog.Event.{World, ok}
use keyfrog.Event.Labels.{Labels, event_of}
use keyfrog.Event.Recorded.{IsDelivered, delivered-IsHandled}
use keyfrog.Daemon.Counts.{IsComplete, counted}
use keyfrog.Daemon.Records.{drained, started, stored-started}
use keyfrog.Daemon.Start.{System, Program}
use keyfrog.Daemon.Launch.{Host, Descriptors, Arguments, main}
use keyfrog.Daemon.Launch as Launch
use keyfrog.Daemon.Threads.{threads_of, main-threads}
use keyfrog.Daemon.Recording.{IsRecording, main-IsRecording}
use keyfrog.Daemon.Loop.{Turn, Running, take_turns}
use keyfrog.Daemon.Loop.Handled.{event_of-IsComplete}
use keyfrog.Daemon.Loop.Upcoming.{events_of}
use keyfrog.Daemon.Loop.Sound.{IsSound, IsSteady}
use keyfrog.Process.Manager.{ProcessManager, ProcessManagerLaws}
use keyfrog.Daemon.Loop.Counts.{stamped, count_rounds, take_turns-accounted}

module _ (boost : Boost) (laws : BoostLaws boost) (api : Sqlite) (sqlite : SqliteLaws api) (b : Bgl)
    (world : World b) where
  open api use {Db}

  -- The loop about to be entered: nothing queued, nothing cached, the replies still to come.
  abbrev pub begun : Db → List (List Intercept) → Running boost (sqlite_storage api) b
  begun db arriving = record {
    filter = record { monitor = new_monitor; events = [] };
    state = started boost laws api sqlite db new_cache;
    arriving = arriving;
    tree = world.tree;
  }

module _ (boost : Boost) (laws : BoostLaws boost) (api : Sqlite) (sqlite : SqliteLaws api) (b : Bgl)
    (manager : ProcessManager b) (promises : ProcessManagerLaws b manager) (world : World b)
    (groups : FilterConfig) (debug : Bool) (label : ℕ → ℤ) where
  open manager use {Sight}
  open api use {Db, count_at, update, insert}
  open world use {server, fuel}

  events-IsComplete : (rs : List RawEvent) → All IsComplete (map (event_of b world groups label) rs)
  events-IsComplete [] = tt
  events-IsComplete (r ∷ rs) = (event_of-IsComplete b world groups label r, events-IsComplete rs)

  -- With a recorder that delivers what the filter knows.
  pub take_turns_records :
      ((n c g : ℤ) (db : Db) → (update n c g db).done ≡ true)
      → ((c e n g : ℤ) (db : Db) → count_at db c g ≡ none → (insert c e n g db).done ≡ true)
      → Labels b world groups label
      → (r : Recorder) (arriving : List (List Intercept)) (turns : List (Turn Sight)) (db : Db)
        (c g : ℤ)
      → IsRecording r
      → All (IsDelivered r) (rounds arriving)
      → All (IsSteady b manager promises world groups label) turns
      → count_rounds turns ≤ length (events_of b world groups debug label 0 (rounds arriving))
      → eq_ℤ g no_group ≡ false
      → (s : Running boost (sqlite_storage api) b) × (take_turns boost
            (sqlite_storage api)
            b
            manager
            world
            groups
            debug
            turns
            (begun boost laws api sqlite b world db arriving)
          ≡ ok s)
        × ((n : ℕ) × (m : Manager boost (sqlite_storage api)) × (run boost
                (sqlite_storage api)
                (replicate n commits)
                s.state.manager
              ≡ some m)
            × (m.cache ≡ [])
            × (m.localcache ≡ [])
            × (stored api m.backend c g
                ≡ stored api db c g
                  +ℤ counted boost
                      (sqlite_storage api)
                      (stamped turns (events_of b world groups debug label 0 (rounds arriving)))
                      c
                      g))
  take_turns_records updates inserts labels r arriving turns db c g (_, types) delivered steady fits
        proper =
      let storage : Storage = sqlite_storage api in
      let keeps = sqlite_storage_laws api sqlite in
      let reliable = add_key_press_succeeds api sqlite updates inserts in
      let events = events_of b world groups debug label 0 (rounds arriving) in
      let sound : IsSound boost laws storage keeps reliable b manager promises world groups debug
          label (begun boost laws api sqlite b world db arriving) =
        record {
          ready = (
            refl,
            new_cache-IsHonest server fuel,
            delivered-IsHandled b world groups r (rounds arriving) types delivered,
          );
          complete = events-IsComplete (map raw (fresh 0 (rounds arriving)));
          labelled = labels;
          keyed = record { cached = tt; copied = tt };
        } in
      let (s, ran, final, total) =
        take_turns-accounted boost laws storage keeps reliable b manager promises world groups debug
          label turns events (begun boost laws api sqlite b world db arriving) c g sound steady refl
          fits proper in
      let (n, m, committed, cleared, empty, sums) =
        drained boost laws api sqlite updates inserts s.state.manager final.keyed in
      (
        s,
        ran,
        (
          n,
          m,
          committed,
          cleared,
          empty,
          sums c g
              ∙ total
              ∙ ap (λ a. a +ℤ counted boost storage (stamped turns events) c g)
                  (stored-started boost laws api sqlite db new_cache c g),
        ),
      )

-- Over a Boost and a sqlite that keep their laws and a process manager that keeps its promise,
-- where main reaches its loop with the option nb, the statements of the database finish, the
-- replies to come are not from the server or of a type that the record ranges deliver, and the X
-- server and each process tree, the first one and those that the process monitor builds, tell the
-- same group of the configuration for each window, where the walks over windows end, and the
-- descendants of a pid are gathered wherever the filter asks for them: the committer and the
-- process monitor have their threads; from empty queues, caches and counts, rounds of the main
-- loop, no more than there are events in the replies, steps of the committer and rounds of the
-- process monitor, in any order, all succeed; some number of further steps of the committer then
-- leaves both maps empty and, for each cluster and each group other than -1, the database with what
-- it held before plus the key presses, repetitions left out, that were handled in that cluster in
-- windows of that group.
pub main_records :
    (boost : Boost) (laws : BoostLaws boost) (api : Sqlite) (sqlite : SqliteLaws api) (b : Bgl)
    (manager : ProcessManager b) (promises : ProcessManagerLaws b manager) (world : World b)
    (label : ℕ → ℤ) (system : System) (recorder : Recorder) (descriptors : Descriptors)
    (host : Host) (arguments : Arguments) (q : Program) (arriving : List (List Intercept))
    (turns : List (Turn manager.Sight)) (db : api.Db) (c g : ℤ)
    → ((n c g : ℤ) (db : api.Db) → (api.update n c g db).done ≡ true)
    → ((c e n g : ℤ) (db : api.Db)
        → api.count_at db c g ≡ none
        → (api.insert c e n g db).done ≡ true)
    → main system recorder descriptors host arguments ≡ Launch.ok q
    → arguments.nb ≡ true
    → Labels b world q.configuration.filter_config label
    → All (IsDelivered q.recorder) (rounds arriving)
    → All (IsSteady b manager promises world q.configuration.filter_config label) turns
    → count_rounds turns
      ≤ length
          (events_of b world q.configuration.filter_config host.debug label 0 (rounds arriving))
    → eq_ℤ g no_group ≡ false
    → (q.threads ≡ threads_of false)
      × ((s : Running boost (sqlite_storage api) b) × (take_turns boost
              (sqlite_storage api)
              b
              manager
              world
              q.configuration.filter_config
              host.debug
              turns
              (begun boost laws api sqlite b world db arriving)
            ≡ ok s)
          × ((n : ℕ) × (m : Manager boost (sqlite_storage api)) × (run boost
                  (sqlite_storage api)
                  (replicate n commits)
                  s.state.manager
                ≡ some m)
              × (m.cache ≡ [])
              × (m.localcache ≡ [])
              × (stored api m.backend c g
                  ≡ stored api db c g
                    +ℤ counted boost
                        (sqlite_storage api)
                        (stamped turns (
                          events_of b world q.configuration.filter_config host.debug label 0
                            (rounds arriving)))
                        c
                        g)))
main_records boost laws api sqlite b manager promises world label system recorder descriptors host
      arguments q arriving turns db c g updates inserts launched nb labels delivered steady fits
      proper =
    (
      main-threads system recorder descriptors host arguments q launched
          ∙ ap (λ b. threads_of (not b)) nb,
      take_turns_records boost laws api sqlite b manager promises world
          q.configuration.filter_config host.debug label updates inserts labels q.recorder arriving
          turns db c g (main-IsRecording system recorder descriptors host arguments q launched nb)
          delivered steady fits proper,
    )
