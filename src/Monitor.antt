-- ===== src/Monitor.antt =====
-- src/EventMonitorX11.cpp and src/RawEvent.h: events that the X server records, and their queue.
pub mod Callback
pub mod Connect
pub mod Recorded
pub mod Mac
pub mod Interface
pub mod Systems
use keyfrog.Base.{
  ℕ, suc, ℤ, pos, negsuc, ltb, ◌%◌, ◌-◌, ◌+◌, Bool, true, false, not, ◌&&◌, List, [], ◌∷◌, ◌++◌,
  Option, none, some, ◌==◌, if◌then◌else◌,
}

-- The event types of X.h that the program names.
abbrev pub key_press : ℕ
key_press = 2

abbrev pub focus_in : ℕ
focus_in = 9

abbrev pub destroy_notify : ℕ
destroy_notify = 17

-- The members of `XRecordDatum`, a union over an xEvent, that the program reads: the type, the key
-- code, and a window at each of two places.
pub record Datum : Type 0 where
  pub type : ℕ
  pub detail : ℕ
  pub pointer_window : ℕ
  pub destroyed_window : ℕ

-- `XRecordInterceptData`; `from_server` is `category == XRecordFromServer`.
pub record Intercept : Type 0 where
  pub from_server : Bool
  pub datum : Datum
  pub server_time : ℕ

-- `RawEvent`: of the members of its union the event is set last, and so the one that counts.
pub record RawEvent : Type 0 where
  pub datum : Datum
  pub time : ℤ

-- The conversion of an unsigned number to an int of 32 bits, as `setTime` takes it.
unfoldable pub as_int : ℕ → ℤ
as_int n =
    let low = n % 4294967296 in if ltb low 2147483648 then pos low else negsuc (4294967295 - low)

-- The queue, the key code `pc` of the last press, which is static in the callback, and the data that
-- `XRecordFreeData` has given back.
pub record Monitor : Type 0 where
  pub events : List RawEvent
  pub pc : ℕ
  pub freed : List Intercept

abbrev pub new_monitor : Monitor
new_monitor = record { events = []; pc = 0; freed = [] }

-- The end of the callback: a new event at the back of the queue, and the data given back.
unfoldable pub remember : Intercept → ℕ → Monitor → Monitor
remember hook pc m = record {
  events = m.events ++ record { datum = hook.datum; time = as_int hook.server_time } ∷ [];
  pc = pc;
  freed = m.freed ++ hook ∷ [];
}

-- `eventCallback`
unfoldable pub event_callback : Intercept → Monitor → Monitor
unfolding remember
event_callback hook m =
    let c = hook.datum.detail in
    if not hook.from_server
    then record m { freed = m.freed ++ hook ∷ [] }
    else if hook.datum.type == key_press
    then (if c == m.pc then m else remember hook c m)
    else remember hook m.pc m

-- `processEvents`: `XRecordProcessReplies` calls back for each reply that has come in.
unfoldable pub process_replies : List Intercept → Monitor → Monitor
unfolding event_callback
process_replies [] m = m
process_replies (hook ∷ rest) m = process_replies rest (event_callback hook m)

-- `waitForEvents`, over the replies that come in at each round. `none`: it waits on.
unfoldable pub wait_for_events :
    List (List Intercept) → Monitor → Option (Monitor × List (List Intercept))
unfolding process_replies
wait_for_events [] m = elim m.events [ [] ↦ none | _ ∷ _ ↦ some (m, []) ]
wait_for_events (replies ∷ later) m =
    let more = wait_for_events later (process_replies replies m) in
    elim m.events [ [] ↦ more | _ ∷ _ ↦ some (m, replies ∷ later) ]

-- The front of the queue, where there is one.
unfoldable pub pop_front : Monitor → Option (RawEvent × Monitor)
pop_front m = elim m.events [ [] ↦ none | event ∷ rest ↦ some (event, record m { events = rest }) ]

infixl 5 ◌>>=◌
abbrev ◌>>=◌ {ℓ κ} : {A : Type ℓ} {B : Type κ} → Option A → (A → Option B) → Option B
none >>= f = none
some a >>= f = f a

-- `nextEvent`
unfoldable pub next_event :
    List (List Intercept) → Monitor → Option (RawEvent × Monitor × List (List Intercept))
unfolding wait_for_events pop_front
next_event arriving m = do
  (m', later) ← wait_for_events arriving m
  (event, m'') ← pop_front m'
  some (event, m'', later)
