-- ===== src/Daemon/Loop/Handled.antt =====
-- A round of the main loop and the window cache; and the events that it can handle.
use keyfrog.Base.{ℕ, ℤ, ◌≡◌, sym, inl, inr, ◌⊎◌, some, arith, Bool-cases, ◌==◌, subst}
use keyfrog.Storage.{Storage}
use keyfrog.Storage.Manager.{Boost}
use keyfrog.Window.{find_and_use_window, invalidate_entry}
use keyfrog.Window.Cache.{invalidate_entry-find_and_use_window}
use keyfrog.Window.Honest.{IsHonest, invalidate_entry-IsHonest}
use keyfrog.Process.Graph.{Bgl}
use keyfrog.Filter.{FilterConfig}
use keyfrog.Monitor.{destroy_notify, key_press, RawEvent}
use keyfrog.Event.{World, Event}
use keyfrog.Event.Labels.{event_of}
use keyfrog.Daemon.{State, handle, press_now}
use keyfrog.Daemon.Counts.{IsComplete, key_pressed, focused, destroyed}

module _ (boost : Boost) (storage : Storage) (b : Bgl) (world : World b) where
  open world use {server, fuel}

  -- A round forgets a window or leaves the windows as they are.
  handle-windows :
      (now : ℤ) (event : Event) (s s' : State boost storage)
      → IsComplete event
      → handle boost storage now event s ≡ some s'
      → (s'.windows ≡ s.windows)
        ⊎ ((w : ℕ) × (invalidate_entry (find_and_use_window w s.windows) ≡ some s'.windows))
  unfolding handle press_now
  handle-windows now event s s' (key_pressed gid kind group) e = inl (ground arith)
  handle-windows now event s s' (focused kind) e = inl (ground arith)
  handle-windows now event s s' (destroyed w kind win) e =
      let (after, gone, _, _) = invalidate_entry-find_and_use_window w w s.windows in
      inr (w, ground arith)

  pub handle-IsHonest :
      (now : ℤ) (event : Event) (s s' : State boost storage)
      → IsComplete event
      → handle boost storage now event s ≡ some s'
      → IsHonest server fuel s.windows
      → IsHonest server fuel s'.windows
  handle-IsHonest now event s s' complete e h = elim (handle-windows now event s s' complete e) [
    | inl same ↦ subst (IsHonest server fuel) (sym same) h
    | inr (w, gone) ↦ invalidate_entry-IsHonest server fuel w s.windows s'.windows h gone
  ]

-- What the program makes of a raw event is complete.
pub event_of-IsComplete :
    (b : Bgl) (world : World b) (groups : FilterConfig) (label : ℕ → ℤ) (r : RawEvent)
    → IsComplete (event_of b world groups label r)
event_of-IsComplete b world groups label r = elim (Bool-cases (r.datum.type == key_press)) [
  | inl key ↦ key_pressed (label r.datum.pointer_window) (ground arith) (ground arith)
  | inr other ↦ elim (Bool-cases (r.datum.type == destroy_notify)) [
    | inl gone ↦ destroyed r.datum.destroyed_window (ground arith) (ground arith)
    | inr focus ↦ focused (ground arith)
  ]
]
