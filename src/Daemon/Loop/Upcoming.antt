-- ===== src/Daemon/Loop/Upcoming.antt =====
-- The events that the filter still has to hand out, and that it hands out the first of them.
use keyfrog.Base.{
  map-append, All-split, ℕ, ℤ, ◌≡◌, ◌≢◌, refl, sym, ap, ◌∙◌, inl, inr, Bool, List, [], ◌∷◌, ◌++◌,
  some, map, All, arith, subst, Option-cases, List-cases,
}
use keyfrog.Window.{KfWindowCache}
use keyfrog.Window.Honest.{IsHonest}
use keyfrog.Process.Graph.{Bgl}
use keyfrog.Filter.{FilterConfig}
use keyfrog.Monitor.{Intercept, RawEvent, Monitor, wait_for_events}
use keyfrog.Monitor.Callback.{
  rounds-append, fresh-append, raw, last_key, fresh, rounds, process_replies_lem,
  wait_for_events_lem, wait_for_events-ne-nil, wait_for_events-eq-none,
}
use keyfrog.Event.{World, Event, ok, process_events}
use keyfrog.Event.Decide.{IsKnown}
use keyfrog.Event.Labels.{Labels, event_of, process_events-event_of}
use keyfrog.Daemon.{Filter, next_event}
use keyfrog.Event.Recorded.{fresh-IsKnown, IsHandled}

module _ (b : Bgl) (world : World b) (groups : FilterConfig) (debug : Bool) (label : ℕ → ℤ) where
  open world use {server, fuel}

  -- The events of some replies, behind a key code.
  abbrev pub events_of : ℕ → List Intercept → List Event
  events_of pc hooks = map (event_of b world groups label) (map raw (fresh pc hooks))

  -- The filter's queue, and what the replies will add to it.
  abbrev pub upcoming : Filter → List (List Intercept) → List Event
  upcoming f arriving = f.events ++ events_of f.monitor.pc (rounds arriving)

  events_of-append :
      (pc : ℕ) (xs ys : List Intercept)
      → events_of pc (xs ++ ys) ≡ events_of pc xs ++ events_of (last_key pc xs) ys
  events_of-append pc xs ys =
      ap (λ hs. map (event_of b world groups label) (map raw hs)) (fresh-append pc xs ys)
      ∙ ap (map (event_of b world groups label)) (map-append raw (fresh pc xs) _)
      ∙ map-append (event_of b world groups label) (map raw (fresh pc xs)) _

  -- The wait ends if the replies bring an event.
  wait_returns :
      (arriving : List (List Intercept)) (m : Monitor)
      → m.events ≡ []
      → events_of m.pc (rounds arriving) ≢ []
      → (m' : Monitor) × (taken later : List (List Intercept)) × (wait_for_events arriving m
          ≡ some (m', later))
        × (arriving ≡ taken ++ later)
        × (m'.events ≡ map raw (fresh m.pc (rounds taken)))
        × (m'.pc ≡ last_key m.pc (rounds taken))
        × (m'.events ≢ [])
  wait_returns arriving m empty some_event = elim (Option-cases (wait_for_events arriving m)) [
    | inl waiting ↦
        let told : m.events ++ map raw (fresh m.pc (rounds arriving)) ≡ [] =
          sym (ap (λ (n : Monitor). n.events) (process_replies_lem (rounds arriving) m))
          ∙ wait_for_events-eq-none arriving m waiting in
        let nothing : map raw (fresh m.pc (rounds arriving)) ≡ [] = rw empty at told in
        absurd (some_event (ap (map (event_of b world groups label)) nothing))
    | inr ((m', later), waited) ↦
        let (taken, split, is) = wait_for_events_lem arriving m m' later waited in
        let form = is ∙ process_replies_lem (rounds taken) m in
        (
          m',
          taken,
          later,
          waited,
          split,
          ap (λ (n : Monitor). n.events) form
              ∙ ap (λ q. q ++ map raw (fresh m.pc (rounds taken))) empty,
          ap (λ (n : Monitor). n.pc) form,
          wait_for_events-ne-nil arriving m m' later waited,
        )
  ]

  -- Between two calls of nextEvent the monitor's queue is empty, the window cache is honest, and the
  -- replies to come are of types that the filter knows.
  abbrev pub Ready : Filter → KfWindowCache → List (List Intercept) → Type 0
  Ready f cache arriving =
      (f.monitor.events ≡ [])
      × IsHonest server fuel cache
      × All (IsHandled b world groups) (rounds arriving)

  next_event-wait :
      (f : Filter) (cache cache' : KfWindowCache) (arriving later : List (List Intercept))
      (m' : Monitor) (e : Event) (rest : List Event)
      → f.events ≡ []
      → wait_for_events arriving f.monitor ≡ some (m', later)
      → process_events b world groups debug m'.events cache ≡ ok (e ∷ rest, cache')
      → next_event b world groups debug arriving f cache
        ≡ ok ((e, record { monitor = record m' { events = [] }; events = rest }, cache'), later)
  unfolding next_event
  next_event-wait f cache cache' arriving later m' e rest empty waited made =
      rw (empty, next_event, waited, made)

  abbrev told : RawEvent → Event
  told = event_of b world groups label

  -- What the wait left in the monitor's queue, and what comes after it.
  after_wait :
      (m m' : Monitor) (arriving taken later : List (List Intercept))
      → arriving ≡ taken ++ later
      → m'.events ≡ map raw (fresh m.pc (rounds taken))
      → m'.pc ≡ last_key m.pc (rounds taken)
      → map told m'.events ++ events_of m'.pc (rounds later) ≡ events_of m.pc (rounds arriving)
  after_wait m m' arriving taken later split queue code =
      ap (λ q. map told q ++ events_of m'.pc (rounds later)) queue
      ∙ ap (λ pc. events_of m.pc (rounds taken) ++ events_of pc (rounds later)) code
      ∙ sym (events_of-append m.pc (rounds taken) (rounds later))
      ∙ sym (ap (events_of m.pc) (ap rounds split ∙ rounds-append taken later))

  rounds-IsHandled :
      (pc : ℕ) (q : List RawEvent) (arriving taken later : List (List Intercept))
      → arriving ≡ taken ++ later
      → q ≡ map raw (fresh pc (rounds taken))
      → All (IsHandled b world groups) (rounds arriving)
      → All (IsKnown b world groups) q × All (IsHandled b world groups) (rounds later)
  rounds-IsHandled pc q arriving taken later split queue handled =
      let (now, after) = All-split (IsHandled b world groups) (rounds taken) (rounds later) (
        subst (All (IsHandled b world groups)) (ap rounds split ∙ rounds-append taken later)
          handled) in
      (
        subst (All (IsKnown b world groups)) (sym queue)
            (fresh-IsKnown b world groups pc (rounds taken) now),
        after,
      )

  -- nextEvent gives the event, and leaves the rest of them to come.
  abbrev pub Told : Filter → KfWindowCache → List (List Intercept) → Event → List Event → Type 0
  Told f cache arriving e rest =
      (f' : Filter) × (cache' : KfWindowCache) × (later : List (List Intercept)) × (next_event b
          world groups debug arriving f cache
        ≡ ok ((e, f', cache'), later))
      × (upcoming f' later ≡ rest)
      × Ready f' cache' later

  next_event-made :
      (f : Filter) (cache cache' : KfWindowCache) (arriving later : List (List Intercept))
      (m' : Monitor) (e : Event) (rest : List Event)
      → f.events ≡ []
      → wait_for_events arriving f.monitor ≡ some (m', later)
      → m'.events ≢ []
      → process_events b world groups debug m'.events cache ≡ ok (map told m'.events, cache')
      → map told m'.events ++ events_of m'.pc (rounds later) ≡ e ∷ rest
      → (f' : Filter) × (next_event b world groups debug arriving f cache
          ≡ ok ((e, f', cache'), later))
        × (f'.monitor.events ≡ [])
        × (upcoming f' later ≡ rest)
  next_event-made f cache cache' arriving later m' e rest empty waited some_raw made all =
      elim (List-cases m'.events) [
        | inl none_queued ↦ absurd (some_raw none_queued)
        | inr (r, rs, queued) ↦
            let first : told r ∷ (map told rs ++ events_of m'.pc (rounds later)) ≡ e ∷ rest =
              sym (ap (λ q. map told q ++ events_of m'.pc (rounds later)) queued) ∙ all in
            let head : told r ≡ e = cc first in
            let events : map told m'.events ≡ e ∷ map told rs =
              ap (map told) queued ∙ ap (λ x. x ∷ map told rs) head in
            (
              record { monitor = record m' { events = [] }; events = map told rs },
              next_event-wait f cache cache' arriving later m' e (map told rs) empty waited
                  (made ∙ ap (λ q. ok (q, cache')) events),
              refl,
              cc first,
            )
      ]

  next_event-fetch :
      (f : Filter) (cache : KfWindowCache) (arriving taken later : List (List Intercept))
      (m' : Monitor) (e : Event) (rest : List Event)
      → Labels b world groups label
      → Ready f cache arriving
      → f.events ≡ []
      → events_of f.monitor.pc (rounds arriving) ≡ e ∷ rest
      → wait_for_events arriving f.monitor ≡ some (m', later)
      → arriving ≡ taken ++ later
      → m'.events ≡ map raw (fresh f.monitor.pc (rounds taken))
      → m'.pc ≡ last_key f.monitor.pc (rounds taken)
      → m'.events ≢ []
      → Told f cache arriving e rest
  next_event-fetch f cache arriving taken later m' e rest labels ready empty come waited split queue
        code some_raw =
      let (known, handled) =
        rounds-IsHandled f.monitor.pc m'.events arriving taken later split queue ready.2 in
      let (cache', made, honest) =
        process_events-event_of b world groups label debug m'.events cache labels ready.1 known in
      let (f', is, drained, more) =
        next_event-made f cache cache' arriving later m' e rest empty waited some_raw made
          (after_wait f.monitor m' arriving taken later split queue code ∙ come) in
      (f', cache', later, is, more, (drained, honest, handled))

  -- nextEvent hands out the first of the events to come.
  pub next_event-upcoming :
      (f : Filter) (cache : KfWindowCache) (arriving : List (List Intercept)) (e : Event)
      (rest : List Event)
      → Labels b world groups label
      → Ready f cache arriving
      → upcoming f arriving ≡ e ∷ rest
      → Told f cache arriving e rest
  unfolding next_event
  next_event-upcoming f cache arriving e rest labels ready is = elim (List-cases f.events) [
    | inr (x, xs, queued) ↦
        let both : x ∷ (xs ++ events_of f.monitor.pc (rounds arriving)) ≡ e ∷ rest =
          sym (ap (λ q. q ++ events_of f.monitor.pc (rounds arriving)) queued) ∙ is in
        (record f { events = xs }, cache, arriving, ground (arith, both), cc both, ready)
    | inl empty ↦
        let m = f.monitor in
        let come : events_of m.pc (rounds arriving) ≡ e ∷ rest =
          sym (ap (λ q. q ++ events_of m.pc (rounds arriving)) empty) ∙ is in
        let (m', taken, later, waited, split, queue, code, some_raw) =
          wait_returns arriving m ready.0 (λ nothing. cc (sym nothing ∙ come)) in
        next_event-fetch f cache arriving taken later m' e rest labels ready empty come waited split
          queue code some_raw
  ]
