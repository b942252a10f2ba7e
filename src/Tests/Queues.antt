-- ===== src/Tests/Queues.antt =====
-- The filter's loop over the queues of X11 and of Mac OS X.
use keyfrog.Base.{◌≡◌, refl, true, List, [], ◌∷◌, arith}
use keyfrog.Window.{KfWindowCache}
use keyfrog.Monitor.{RawEvent, new_monitor}
use keyfrog.Tests.Starting.{connected}
use keyfrog.Monitor.Callback.{raw}
use keyfrog.Monitor.Mac.{EventMonitorMac}
use keyfrog.Monitor.Mac as Mac
use keyfrog.Monitor.Systems.{
  EventMonitorX11, x11_monitor, x11_monitor_laws, mac_monitor, mac_monitor_laws,
}
use keyfrog.Event.{process_events}
use keyfrog.Event.Queue.{process_queue, beside, process_queue-process_events}
use keyfrog.Tests.Instances.{bgl}
use keyfrog.Tests.Filtering.{groups}
use keyfrog.Tests.Monitoring.{recorded}
use keyfrog.Tests.Desktop.{desktop}

abbrev queued : List RawEvent
queued = raw (recorded 2 38) ∷ raw (recorded 17 0) ∷ []

abbrev waiting : EventMonitorX11
waiting = (connected, record new_monitor { events = queued })

waiting_queue : x11_monitor_laws.queue waiting ≡ queued
unfolding x11_monitor_laws
waiting_queue = refl

process_queue-process_events_example :
    (m' : EventMonitorX11) × (x11_monitor_laws.queue m' ≡ [])
    × ((cache : KfWindowCache)
        → process_queue bgl desktop groups true x11_monitor 3 waiting cache
          ≡ beside m' (process_events bgl desktop groups true queued cache))
process_queue-process_events_example =
    process_queue-process_events bgl desktop groups true x11_monitor x11_monitor_laws queued 3
      waiting waiting_queue (omega arith)

-- A queue of Mac OS X, where one was filled.
abbrev tapped : EventMonitorMac
tapped = record Mac.new_monitor { events = queued }

tapped_queue : mac_monitor_laws.queue tapped ≡ queued
unfolding mac_monitor_laws
tapped_queue = refl

mac_drains :
    (m' : EventMonitorMac) × (mac_monitor_laws.queue m' ≡ [])
    × ((cache : KfWindowCache)
        → process_queue bgl desktop groups true mac_monitor 3 tapped cache
          ≡ beside m' (process_events bgl desktop groups true queued cache))
mac_drains =
    process_queue-process_events bgl desktop groups true mac_monitor mac_monitor_laws queued 3
      tapped tapped_queue (omega arith)
