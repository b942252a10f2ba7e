-- ===== src/Monitor/Systems.antt =====
-- The monitors of X11 and Mac OS X fill the interface.
use keyfrog.Base.{Bool, ◌≡◌, refl, List, [], ◌∷◌, Option, none, some, length, arith}
use keyfrog.Monitor.{
  process_replies, pop_front, wait_for_events, Intercept, RawEvent, Monitor, next_event,
}
use keyfrog.Monitor.Mac as Mac
use keyfrog.Monitor.Mac.{EventMonitorMac}
use keyfrog.Monitor.Interface.{EventMonitor, EventMonitorLaws}
use keyfrog.Monitor.Connect.{
  stop, start, connect, Recorder, Server, Recorder, Recorder, Recorder, Recorder,
}

-- The connection and the queue of X11.
abbrev pub EventMonitorX11 : Type 0
EventMonitorX11 = Recorder × Monitor

abbrev with_queue : {A : Type 0} → Monitor → Option (A × Recorder) → Option (A × EventMonitorX11)
with_queue m none = none
with_queue m (some (a, r)) = some (a, (r, m))

abbrev beside_queue : Monitor → Option Recorder → Option EventMonitorX11
beside_queue m none = none
beside_queue m (some r) = some (r, m)

abbrev with_recorder : Recorder → Option (Monitor × List (List Intercept)) → Option EventMonitorX11
with_recorder r none = none
with_recorder r (some (m, later)) = some (r, m)

-- The event and the monitor, without the replies that are left.
abbrev handed_out :
    Recorder
    → Option (RawEvent × Monitor × List (List Intercept))
    → Option (RawEvent × EventMonitorX11)
handed_out r none = none
handed_out r (some (e, m, later)) = some (e, (r, m))

abbrev pub x11_monitor : EventMonitor
x11_monitor = record {
  State = EventMonitorX11;
  Answers = Server;
  Arrival = List Intercept;
  connect = λ x name m. with_queue m.1 (connect x name m.0);
  start = λ x m. beside_queue m.1 (start x m.0);
  stop = λ x m. beside_queue m.1 (stop x m.0);
  process_events = λ replies m. (m.0, process_replies replies m.1);
  wait_for_events = λ arriving m. with_recorder m.0 (wait_for_events arriving m.1);
  next_event = λ arriving m. handed_out m.0 (next_event arriving m.1);
  num_events = λ m. length m.1.events;
}

pub x11_hands_out :
    (arriving : List (List Intercept)) (r : Recorder) (m : Monitor) (e : RawEvent)
    (rest : List RawEvent)
    → m.events ≡ e ∷ rest
    → handed_out r (next_event arriving m) ≡ some (e, (r, record m { events = rest }))
unfolding next_event wait_for_events pop_front
x11_hands_out [] r m e rest queued = ground (arith, queued)
x11_hands_out (replies ∷ later) r m e rest queued = ground (arith, queued)

unfoldable pub x11_monitor_laws : EventMonitorLaws x11_monitor
x11_monitor_laws = record {
  queue = λ m. m.1.events;
  counts = λ m. refl;
  hands_out = λ arriving m e rest queued.
      ((m.0, record m.1 { events = rest }), x11_hands_out arriving m.0 m.1 e rest queued, refl);
}

abbrev pub mac_monitor : EventMonitor
mac_monitor = record {
  State = EventMonitorMac;
  Answers = Bool;
  Arrival = List RawEvent;
  connect = λ creates name m. some (Mac.connect creates m);
  start = λ creates m. some (Mac.start m);
  stop = λ creates m. some (Mac.stop m);
  process_events = λ taps m. Mac.called_back taps (Mac.process_events m);
  wait_for_events = Mac.wait_for_events;
  next_event = Mac.next_event;
  num_events = Mac.num_events;
}

pub mac_hands_out :
    (rounds : List (List RawEvent)) (m : EventMonitorMac) (e : RawEvent) (rest : List RawEvent)
    → m.events ≡ e ∷ rest
    → Mac.next_event rounds m ≡ some (e, record m { events = rest })
unfolding Mac.next_event
mac_hands_out rounds m e rest queued = ground (arith, queued)

unfoldable pub mac_monitor_laws : EventMonitorLaws mac_monitor
mac_monitor_laws = record {
  queue = λ m. m.events;
  counts = λ m. refl;
  hands_out = λ rounds m e rest queued.
      (record m { events = rest }, mac_hands_out rounds m e rest queued, refl);
}
