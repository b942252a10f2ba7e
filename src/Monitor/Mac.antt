-- ===== src/Monitor/Mac.antt =====
-- src/EventMonitorMac.cpp and src/EventMonitorMac.h: the event tap of Mac OS X.
use keyfrog.Base.{
  ◌∙◌, ℕ, ◌≡◌, refl, Bool, true, false, List, [], ◌∷◌, Option, none, some, length, arith,
  if◌then◌else◌,
}
use keyfrog.Monitor.{RawEvent}

-- `events`, whether `m_eventTap` and `m_runLoopSource` are set, and whether the tap is enabled.
pub record EventMonitorMac : Type 0 where
  pub events : List RawEvent
  pub event_tap : Bool
  pub run_loop_source : Bool
  pub enabled : Bool

-- The constructor
abbrev pub new_monitor : EventMonitorMac
new_monitor = record { events = []; event_tap = false; run_loop_source = false; enabled = false }

-- `setupEventTap`; `creates` is the answer of `CGEventTapCreate`.
unfoldable pub setup_event_tap : (creates : Bool) → EventMonitorMac → Bool × EventMonitorMac
setup_event_tap creates m =
    if creates
    then (true, record m { event_tap = true; run_loop_source = true })
    else (false, record m { event_tap = false })

-- `connect`, which has no use for its text.
unfoldable pub connect : (creates : Bool) → EventMonitorMac → Bool × EventMonitorMac
unfolding setup_event_tap
connect creates m = setup_event_tap creates m

-- `start` and `stop`
unfoldable pub start : EventMonitorMac → EventMonitorMac
start m = record m { enabled = true }

unfoldable pub stop : EventMonitorMac → EventMonitorMac
stop m = record m { enabled = false }

-- `processEvents`
unfoldable pub process_events : EventMonitorMac → EventMonitorMac
process_events m = m

-- `eventCallback`, as it returns: its event is a local variable, and reaches no queue.
unfoldable pub event_callback : RawEvent → EventMonitorMac → EventMonitorMac
event_callback new_raw_event m = m

-- The callbacks while the program sleeps.
unfoldable pub called_back : List RawEvent → EventMonitorMac → EventMonitorMac
unfolding event_callback
called_back [] m = m
called_back (e ∷ rest) m = called_back rest (event_callback e m)

-- `numEvents`
abbrev pub num_events : EventMonitorMac → ℕ
num_events m = length m.events

-- `waitForEvents`, over rounds with the callbacks of each; `none` is a wait that is not over.
unfoldable pub wait_for_events : List (List RawEvent) → EventMonitorMac → Option EventMonitorMac
unfolding process_events called_back
wait_for_events [] m = elim m.events [ [] ↦ none | _ ∷ _ ↦ some m ]
wait_for_events (taps ∷ later) m =
    let rest = wait_for_events later (called_back taps (process_events m)) in
    elim m.events [ [] ↦ rest | _ ∷ _ ↦ some m ]

-- `nextEvent`
abbrev pop_front : EventMonitorMac → Option (RawEvent × EventMonitorMac)
pop_front m = elim m.events [ [] ↦ none | e ∷ rest ↦ some (e, record m { events = rest }) ]

unfoldable pub next_event :
    List (List RawEvent) → EventMonitorMac → Option (RawEvent × EventMonitorMac)
unfolding wait_for_events
next_event rounds m = elim m.events [
  | _ ∷ _ ↦ pop_front m
  | [] ↦ elim (wait_for_events rounds m) [ none ↦ none | some m' ↦ pop_front m' ]
]

called_back-events :
    (taps : List RawEvent) (m : EventMonitorMac) → (called_back taps m).events ≡ m.events
unfolding called_back
called_back-events [] m = refl
called_back-events (e ∷ rest) m = called_back-events rest m

wait_for_events-events :
    (rounds : List (List RawEvent)) (m : EventMonitorMac)
    → m.events ≡ []
    → wait_for_events rounds m ≡ none
unfolding wait_for_events
wait_for_events-events [] m e = rw (e, wait_for_events) refl
wait_for_events-events (taps ∷ later) m e =
    rw (e, wait_for_events)
      (wait_for_events-events later (called_back taps m) (called_back-events taps m ∙ e))

-- On Mac OS X a monitor that has connected and started gives no event, whatever the callbacks of
-- any number of rounds of its wait.
pub connect-next_event :
    (creates : Bool) (m : EventMonitorMac) (rounds : List (List RawEvent))
    → connect creates new_monitor ≡ (true, m)
    → next_event rounds (start m) ≡ none
unfolding next_event connect start
connect-next_event creates m rounds e =
    let quiet : m.events ≡ [] = ground arith in
    rw (quiet, next_event, wait_for_events-events rounds (start m) quiet) refl
