-- ===== src/Tests/Looping.antt =====
-- The main loop on a few events.
use keyfrog.Base.{replicate, ℕ, All, ℤ, pos, negsuc, ◌+ℤ◌, ◌≡◌, refl, List, [], ◌∷◌, none, some}
use keyfrog.Base.Map.{find, insert, erase}
use keyfrog.Base.Text.{show_int}
use keyfrog.Storage.Cluster.{get_cluster_start}
use keyfrog.Storage.Sqlite.{stored}
use keyfrog.Storage.Backend.{sqlite_storage}
use keyfrog.Storage.Manager.{Manager, press, cache_key}
use keyfrog.Storage.Manager.Conserve.{commits, run}
use keyfrog.Window.{new_cache, at_end, find_and_use_window, invalidate_entry}
use keyfrog.Event.{Event, kf_key_press, kf_focus_in, kf_destroy_notify}
use keyfrog.Daemon.{State, handle_all}
use keyfrog.Daemon.Counts.{IsComplete, key_pressed, focused, destroyed, counted}
use keyfrog.Daemon.Records.{started, handle_all_records}
use keyfrog.Tests.Instances.{updates_finish, inserts_finish, boost, boost-laws, sqlite, sqlite-laws}
use keyfrog.Tests.Storing.{three, quiet}

-- Two key presses of group 7, one of no group, and a focus change.
abbrev press_of : ℤ → Event
press_of g = record {
  dest_win = some 12;
  group_id = some g;
  time = pos 0;
  type = some kf_key_press;
}

abbrev focus : Event
focus = record { dest_win = none; group_id = none; time = pos 0; type = some kf_focus_in }

abbrev destroyed_12 : Event
destroyed_12 = record {
  dest_win = some 12;
  group_id = none;
  time = pos 0;
  type = some kf_destroy_notify;
}

abbrev day : List (ℤ × Event)
day =
    (pos 1000, press_of (pos 7))
    ∷ (pos 1001, press_of (negsuc 0))
    ∷ (pos 1002, focus)
    ∷ (pos 1003, destroyed_12)
    ∷ (pos 1004, press_of (pos 7))
    ∷ []

abbrev idle : State boost (sqlite_storage sqlite)
idle = record { manager = quiet; windows = new_cache }

day-IsComplete : All (λ (e : ℤ × Event). IsComplete e.1) day
day-IsComplete = (
  key_pressed (pos 7) refl refl,
  (
    key_pressed (negsuc 0) refl refl,
    (focused refl, (destroyed 12 refl refl, (key_pressed (pos 7) refl refl, tt))),
  ),
)

-- The state after the day.
abbrev evening : State boost (sqlite_storage sqlite)
evening = record {
  manager = record quiet { cache = (cache_key (pos 7) (pos 900), pos 2) ∷ [] };
  windows = record { windows = []; current = at_end };
}

day_is_handled : handle_all boost (sqlite_storage sqlite) day idle ≡ some evening
unfolding handle_all cache_key get_cluster_start find_and_use_window invalidate_entry find press
    erase show_int insert ◌+ℤ◌
day_is_handled = refl

handle_all_records_example :
    (s : State boost (sqlite_storage sqlite)) × (handle_all boost
        (sqlite_storage sqlite)
        day
        (started boost boost-laws sqlite sqlite-laws three new_cache)
      ≡ some s)
    × ((n : ℕ) × (m : Manager boost (sqlite_storage sqlite)) × (run boost
            (sqlite_storage sqlite)
            (replicate n commits)
            s.manager
          ≡ some m)
        × (m.cache ≡ [])
        × (m.localcache ≡ [])
        × (stored sqlite m.backend (pos 900) (pos 7)
            ≡ stored sqlite three (pos 900) (pos 7)
              +ℤ counted boost (sqlite_storage sqlite) day (pos 900) (pos 7)))
handle_all_records_example =
    handle_all_records boost boost-laws sqlite sqlite-laws updates_finish inserts_finish day three
      new_cache (pos 900) (pos 7) day-IsComplete refl
