-- ===== src/Monitor/Callback.antt =====
-- What the callback queues and what it gives back.
use keyfrog.Base.{
  ◌≢◌, Option-cases, List-cases, ℕ, ◌≡◌, refl, sym, ap, ◌∙◌, inl, inr, Bool, not, ◌&&◌, List, [],
  ◌∷◌, ◌++◌, map, arith, ◌==◌, if◌then◌else◌, none, some,
}
use mathlib.Core.List.{append_assoc, append-nil}
use keyfrog.Monitor.{
  as_int, Intercept, RawEvent, Monitor, key_press, event_callback, process_replies, wait_for_events,
  pop_front, next_event,
}

abbrev pub raw : Intercept → RawEvent
raw hook = record { datum = hook.datum; time = as_int hook.server_time }

abbrev pub is_key : Intercept → Bool
is_key hook = hook.from_server && hook.datum.type == key_press

-- A press of the key that was pressed last, `pc`.
abbrev pub is_repeat : ℕ → Intercept → Bool
is_repeat pc hook = is_key hook && hook.datum.detail == pc

-- The key that was pressed last after some replies.
unfoldable pub last_key : ℕ → List Intercept → ℕ
last_key pc [] = pc
last_key pc (hook ∷ rest) = last_key (if is_key hook then hook.datum.detail else pc) rest

-- Of some replies, those from the server that are no repeats.
unfoldable pub fresh : ℕ → List Intercept → List Intercept
fresh pc [] = []
fresh pc (hook ∷ rest) =
    let later = fresh (if is_key hook then hook.datum.detail else pc) rest in
    if hook.from_server && not (is_repeat pc hook) then hook ∷ later else later

-- Of some replies, those that are no repeats.
unfoldable pub returned : ℕ → List Intercept → List Intercept
returned pc [] = []
returned pc (hook ∷ rest) =
    let later = returned (if is_key hook then hook.datum.detail else pc) rest in
    if is_repeat pc hook then later else hook ∷ later

event_callback_lem :
    (hook : Intercept) (m : Monitor)
    → event_callback hook m ≡ record {
      events =
          m.events ++ (if hook.from_server && not (is_repeat m.pc hook) then raw hook ∷ [] else []);
      pc = (if is_key hook then hook.datum.detail else m.pc);
      freed = m.freed ++ (if is_repeat m.pc hook then [] else hook ∷ []);
    }
unfolding event_callback
event_callback_lem hook m = ground (arith, append-nil m.events, append-nil m.freed)

-- The replies of a round are queued in order behind the queue, but for those not from the server
-- and for presses of the key that was pressed last; the key code kept is that of the last press;
-- and the data of all but the repeated presses is given back.
pub process_replies_lem :
    (hooks : List Intercept) (m : Monitor)
    → process_replies hooks m ≡ record {
      events = m.events ++ map raw (fresh m.pc hooks);
      pc = last_key m.pc hooks;
      freed = m.freed ++ returned m.pc hooks;
    }
unfolding process_replies fresh returned last_key
process_replies_lem [] m = rw (append-nil m.events, append-nil m.freed)
process_replies_lem (hook ∷ rest) m =
    let pc = if is_key hook then hook.datum.detail else m.pc in
    rw (event_callback_lem hook m, process_replies_lem rest)
      (ground (
        arith,
        append_assoc m.events (raw hook ∷ []) (map raw (fresh pc rest)),
        append_assoc m.freed (hook ∷ []) (returned pc rest),
        append-nil m.events,
        append-nil m.freed,
      ))

process_replies-append :
    (xs ys : List Intercept) (m : Monitor)
    → process_replies (xs ++ ys) m ≡ process_replies ys (process_replies xs m)
unfolding process_replies
process_replies-append [] ys m = refl
process_replies-append (hook ∷ xs) ys m = process_replies-append xs ys (event_callback hook m)

-- All replies of some rounds.
unfoldable pub rounds : List (List Intercept) → List Intercept
rounds [] = []
rounds (replies ∷ rest) = replies ++ rounds rest

pub wait_for_events_lem :
    (arriving : List (List Intercept)) (m m' : Monitor) (later : List (List Intercept))
    → wait_for_events arriving m ≡ some (m', later)
    → (taken : List (List Intercept)) × (arriving ≡ taken ++ later)
      × (m' ≡ process_replies (rounds taken) m)
unfolding wait_for_events rounds process_replies
wait_for_events_lem [] m m' later e = ([], ground arith, ground arith)
wait_for_events_lem (replies ∷ arriving) m m' later e = elim (List-cases m.events) [
  | inr (x, xs, queued) ↦ ([], ground arith, ground arith)
  | inl empty ↦
      let (taken, split, same) =
        wait_for_events_lem arriving (process_replies replies m) m' later
          (rw (empty, wait_for_events) at e) in
      (
        replies ∷ taken,
        ap (◌∷◌ replies) split,
        same ∙ sym (process_replies-append replies (rounds taken) m),
      )
]

-- Where nextEvent returns, some first rounds of the arriving replies were processed, and the old
-- queue followed by their events to queue is the event returned followed by the new queue.
pub next_event_lem :
    (arriving : List (List Intercept)) (m : Monitor) (event : RawEvent) (m' : Monitor)
    (later : List (List Intercept))
    → next_event arriving m ≡ some (event, m', later)
    → (taken : List (List Intercept)) × (arriving ≡ taken ++ later)
      × (m.events ++ map raw (fresh m.pc (rounds taken)) ≡ event ∷ m'.events)
unfolding next_event pop_front
next_event_lem arriving m event m' later e = elim (Option-cases (wait_for_events arriving m)) [
  | inl waiting ↦ ground arith
  | inr ((mid, later'), waited) ↦
      let (taken, split, same) = wait_for_events_lem arriving m mid later' waited in
      (taken, ground arith, ground (arith, process_replies_lem (rounds taken) m))
]

pub wait_for_events-ne-nil :
    (arriving : List (List Intercept)) (m m' : Monitor) (later : List (List Intercept))
    → wait_for_events arriving m ≡ some (m', later)
    → m'.events ≢ []
unfolding wait_for_events
wait_for_events-ne-nil [] m m' later e = ground arith
wait_for_events-ne-nil (replies ∷ arriving) m m' later e = elim (List-cases m.events) [
  | inr (x, xs, queued) ↦ ground arith
  | inl empty ↦
      wait_for_events-ne-nil arriving (process_replies replies m) m' later
        (rw (empty, wait_for_events) at e)
]

pub wait_for_events-eq-none :
    (arriving : List (List Intercept)) (m : Monitor)
    → wait_for_events arriving m ≡ none
    → (process_replies (rounds arriving) m).events ≡ []
unfolding wait_for_events rounds process_replies
wait_for_events-eq-none [] m e = ground arith
wait_for_events-eq-none (replies ∷ arriving) m e = elim (List-cases m.events) [
  | inr (x, xs, queued) ↦ ground arith
  | inl empty ↦
      ap (λ (n : Monitor). n.events) (process_replies-append replies (rounds arriving) m)
      ∙ wait_for_events-eq-none arriving (process_replies replies m)
          (rw (empty, wait_for_events) at e)
]

-- If nextEvent still waits after all arriving rounds, then the queue was empty and none of the
-- rounds brought an event to queue.
pub next_event-eq-none :
    (arriving : List (List Intercept)) (m : Monitor)
    → next_event arriving m ≡ none
    → m.events ++ map raw (fresh m.pc (rounds arriving)) ≡ []
unfolding next_event pop_front
next_event-eq-none arriving m e = elim (Option-cases (wait_for_events arriving m)) [
  | inl waiting ↦
      sym (ap (λ (n : Monitor). n.events) (process_replies_lem (rounds arriving) m))
      ∙ wait_for_events-eq-none arriving m waiting
  | inr ((mid, later'), waited) ↦
      absurd (wait_for_events-ne-nil arriving m mid later' waited (ground arith))
]

-- What is fresh behind some replies depends on the key pressed last in them.
pub fresh-append :
    (pc : ℕ) (xs ys : List Intercept)
    → fresh pc (xs ++ ys) ≡ fresh pc xs ++ fresh (last_key pc xs) ys
unfolding fresh last_key
fresh-append pc [] ys = refl
fresh-append pc (hook ∷ xs) ys =
    ground (arith, fresh-append (if is_key hook then hook.datum.detail else pc) xs ys)

pub rounds-append : (xs ys : List (List Intercept)) → rounds (xs ++ ys) ≡ rounds xs ++ rounds ys
unfolding rounds
rounds-append [] ys = refl
rounds-append (x ∷ xs) ys =
    ap (λ r. x ++ r) (rounds-append xs ys) ∙ sym (append_assoc x (rounds xs) (rounds ys))
