-- ===== src/Tests/Monitoring.antt =====
-- Recorded key presses: a press, its repetition, and a focus change.
use keyfrog.Base.{ℕ, ◌≡◌, refl, true, List, [], ◌∷◌, ◌++◌, none, some, map}
use keyfrog.Monitor.{Intercept, Monitor, new_monitor, process_replies, next_event}
use keyfrog.Monitor.Callback.{
  raw, fresh, returned, last_key, rounds, process_replies_lem, next_event_lem,
}

abbrev pub recorded : (type detail : ℕ) → Intercept
recorded type detail = record {
  from_server = true;
  datum = record { type = type; detail = detail; pointer_window = 12; destroyed_window = 0 };
  server_time = 1000;
}

abbrev replies : List Intercept
replies = recorded 2 38 ∷ recorded 2 38 ∷ recorded 9 0 ∷ []

process_replies_lem_example : process_replies replies new_monitor ≡ record {
  events = [] ++ map raw (fresh 0 replies);
  pc = last_key 0 replies;
  freed = [] ++ returned 0 replies;
}
process_replies_lem_example = process_replies_lem replies new_monitor

-- A round with nothing, one with the replies, and one that is not waited for.
abbrev arriving : List (List Intercept)
arriving = [] ∷ replies ∷ replies ∷ []

abbrev left_over : Monitor
left_over = record {
  events = raw (recorded 9 0) ∷ [];
  pc = 38;
  freed = recorded 2 38 ∷ recorded 9 0 ∷ [];
}

arrives : next_event arriving new_monitor ≡ some (raw (recorded 2 38), left_over, replies ∷ [])
unfolding next_event
arrives = refl

next_event_lem_example :
    (taken : List (List Intercept)) × (arriving ≡ taken ++ (replies ∷ []))
    × ([] ++ map raw (fresh 0 (rounds taken)) ≡ raw (recorded 2 38) ∷ left_over.events)
next_event_lem_example =
    next_event_lem arriving new_monitor (raw (recorded 2 38)) left_over (replies ∷ []) arrives

waits : next_event ([] ∷ [] ∷ []) new_monitor ≡ none
unfolding next_event
waits = refl
