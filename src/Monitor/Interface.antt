-- ===== src/Monitor/Interface.antt =====
-- src/EventMonitor.h: the interface to the events of a system, and the queue that it promises.
use keyfrog.Base.{Bool, ℕ, ◌≡◌, List, ◌∷◌, Option, some, length}
use keyfrog.Base.Text.{Text}
use keyfrog.Monitor.{RawEvent}

-- The virtual methods of `EventMonitor`, over what the system answers and over rounds of what arrives
-- during a wait. `none` is an exception, or a wait that is not over.
pub record EventMonitor : Type 1 where
  pub State : Type 0
  pub Answers : Type 0
  pub Arrival : Type 0
  pub connect : Answers → Text → State → Option (Bool × State)
  pub start : Answers → State → Option State
  pub stop : Answers → State → Option State
  pub process_events : Arrival → State → State
  pub wait_for_events : List Arrival → State → Option State
  pub next_event : List Arrival → State → Option (RawEvent × State)
  pub num_events : State → ℕ

-- What a monitor promises: a queue, whose length is told, and whose front is handed out without a wait.
pub record EventMonitorLaws (monitor : EventMonitor) : Type 1 where
  pub queue : monitor.State → List RawEvent
  pub counts : (m : monitor.State) → monitor.num_events m ≡ length (queue m)
  pub hands_out :
      (arriving : List monitor.Arrival) (m : monitor.State) (e : RawEvent) (rest : List RawEvent)
      → queue m ≡ e ∷ rest
      → (m' : monitor.State) × (monitor.next_event arriving m ≡ some (e, m')) × (queue m' ≡ rest)
