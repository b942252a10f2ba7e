-- ===== src/Daemon.antt =====
-- src/Daemon.cpp: the main loop over events, and the queue of src/EventFilter.cpp in front of it.
pub mod Counts
pub mod Records
pub mod Start
pub mod Launch
pub mod Threads
pub mod Recording
pub mod Background
pub mod Descriptors
pub mod Loop
use keyfrog.Base.{
  ℕ, suc, ℤ, pos, ◌+ℤ◌, Bool, true, false, ◌&&◌, List, [], ◌∷◌, ◌++◌, Option, none, some, eq_ℤ,
  if◌then◌else◌,
}
use keyfrog.Storage.{Storage}
use keyfrog.Storage.Manager.{Boost, Manager, press}
use keyfrog.Window.{KfWindowCache, find_and_use_window, invalidate_entry}
use keyfrog.Process.Graph.{Bgl}
use keyfrog.Filter.{FilterConfig, no_group}
use keyfrog.Monitor.{Intercept, RawEvent, Monitor, wait_for_events}
use keyfrog.Event.{
  World, Result, ok, diverged, threw, ◌>>=◌, lift, Event, EventType, kf_key_press,
  kf_destroy_notify, kf_focus_in, process_events,
}

module _ (boost : Boost) (storage : Storage) where
  -- `m_storage` and `m_wim`
  pub record State : Type 0 where
    pub manager : Manager boost storage
    pub windows : KfWindowCache

  -- `m_storage->addKeyPress(group)`, the overload that takes the present time and a count of 1
  unfoldable pub press_now : ℤ → ℤ → State → State
  press_now now app_group s = record s {
    manager = press boost storage app_group now (pos 1) s.manager;
  }

  -- The switch of `run`. `none` is the use of a member that was never set, or of an iterator that
  -- was not.
  unfoldable pub handle : (now : ℤ) → Event → State → Option State
  unfolding press_now
  handle now event s = elim event.type [
    | none ↦ none
    | some kind ↦ elim kind [
      | kf_key_press ↦ elim event.group_id [
        | none ↦ none
        | some gid ↦ some (if eq_ℤ gid no_group then s else press_now now gid s)
      ]
      | kf_focus_in ↦ some s
      | kf_destroy_notify ↦ elim event.dest_win [
        | none ↦ none
        | some w ↦ elim (invalidate_entry (find_and_use_window w s.windows)) [
          | none ↦ none
          | some windows ↦ some (record s { windows = windows })
        ]
      ]
    ]
  ]

  -- Rounds of the loop, each with the time at which it handles its event.
  unfoldable pub handle_all : List (ℤ × Event) → State → Option State
  unfolding handle
  handle_all [] s = some s
  handle_all ((now, event) ∷ rest) s = elim (handle now event s) [
    | none ↦ none
    | some s' ↦ handle_all rest s'
  ]

-- What the event filter keeps: the monitor's queue and its own.
pub record Filter : Type 0 where
  pub monitor : Monitor
  pub events : List Event

module _ (b : Bgl) (world : World b) (groups : FilterConfig) (debug : Bool) where
  -- The front of the filter's queue.
  abbrev take_front : List Event → Monitor → KfWindowCache → Result (Event × Filter × KfWindowCache)
  take_front [] m cache = diverged
  take_front (event ∷ rest) m cache = ok (event, record { monitor = m; events = rest }, cache)

  -- `EventFilter::nextEvent`, with the replies still to come. After the wait the monitor has an event,
  -- so one round of the filter's `waitForEvents` is enough.
  unfoldable pub next_event :
      List (List Intercept)
      → Filter
      → KfWindowCache
      → Result ((Event × Filter × KfWindowCache) × List (List Intercept))
  unfolding process_events
  next_event arriving f cache = elim f.events [
    | event ∷ rest ↦ ok ((event, record f { events = rest }, cache), arriving)
    | [] ↦ do
      (monitor, later) ← lift (wait_for_events arriving f.monitor)
      (events, cache') ← process_events b world groups debug monitor.events cache
      front ← take_front events (record monitor { events = [] }) cache'
      ok (front, later)
  ]
