-- ===== src/Event/Queue.antt =====
-- The loop of `processEvents` of src/EventFilter.cpp, over any monitor.
use keyfrog.Base.{
  ℕ, zero, suc, ◌≡◌, refl, ap, ◌∙◌, Bool, false, List, [], ◌∷◌, length, arith, ◌==◌, if◌then◌else◌,
  ◌<◌,
}
use keyfrog.Window.{KfWindowCache}
use keyfrog.Process.Graph.{Bgl}
use keyfrog.Filter.{FilterConfig}
use keyfrog.Monitor.{RawEvent}
use keyfrog.Monitor.Interface.{EventMonitor, EventMonitorLaws}
use keyfrog.Event.{World, Result, ok, diverged, threw, ◌>>=◌, lift, Event, convert, process_events}

-- The events with the monitor that is left.
abbrev pub beside :
    {S : Type 0} → S → Result (List Event × KfWindowCache) → Result (List Event × S × KfWindowCache)
beside m' r = r >>= λ p. ok (p.0, m', p.1)

module _ (b : Bgl) (world : World b) (groups : FilterConfig) (debug : Bool)
    (monitor : EventMonitor) where
  open monitor use {State, num_events, next_event}

  -- `processEvents`, with nothing arriving, since it does not start a wait.
  unfoldable pub process_queue :
      ℕ → State → KfWindowCache → Result (List Event × State × KfWindowCache)
  process_queue zero m cache = diverged
  process_queue (suc fuel) m cache =
      let round = (do
        (raw_event, m') ← lift (next_event [] m)
        (event, cache') ← convert b world groups debug raw_event cache
        (events, m'', cache'') ← process_queue fuel m' cache'
        ok (event ∷ events, m'', cache'')) in
      if num_events m == 0 then ok ([], m, cache) else round

  module _ (promises : EventMonitorLaws monitor) where
    open promises use {queue, counts, hands_out}

    beside_rest :
        (m' : State) (event : Event) (r : Result (List Event × KfWindowCache))
        → (beside m' r >>= λ s. ok (event ∷ s.0, s.1, s.2))
          ≡ beside m' (r >>= λ s. ok (event ∷ s.0, s.1))
    beside_rest m' event (ok (events, c)) = refl
    beside_rest m' event diverged = refl
    beside_rest m' event threw = refl

    beside_one :
        (m' : State) (r : Result (Event × KfWindowCache))
        (f : KfWindowCache → Result (List Event × KfWindowCache))
        (q : KfWindowCache → Result (List Event × State × KfWindowCache))
        → ((c : KfWindowCache) → q c ≡ beside m' (f c))
        → (do (event, c) ← r; (events, m'', c') ← q c; ok (event ∷ events, m'', c'))
          ≡ beside m' (do (event, c) ← r; (events, c') ← f c; ok (event ∷ events, c'))
    beside_one m' (ok (event, c)) f q same =
        ap (λ t. t >>= λ s. ok (event ∷ s.0, s.1, s.2)) (same c) ∙ beside_rest m' event (f c)
    beside_one m' diverged f q same = refl
    beside_one m' threw f q same = refl

    -- For every monitor that tells the length of its queue and hands out its front, the loop of
    -- processEvents, with more fuel than the queue is long, leaves an empty queue, and gives, for
    -- every window cache, what converting the events of the queue one after the other gives, errors
    -- included.
    pub process_queue-process_events :
        (raw_events : List RawEvent) (fuel : ℕ) (m : State)
        → queue m ≡ raw_events
        → length raw_events < fuel
        → (m' : State) × (queue m' ≡ [])
          × ((cache : KfWindowCache)
              → process_queue fuel m cache
                ≡ beside m' (process_events b world groups debug raw_events cache))
    unfolding process_queue process_events
    process_queue-process_events raw_events zero m is enough = absurd (omega arith)
    process_queue-process_events [] (suc fuel) m is enough =
        let told : num_events m ≡ 0 = counts m ∙ ap length is in
        (m, is, λ cache. rw (told, process_queue) refl)
    process_queue-process_events (e ∷ rest) (suc fuel) m is enough =
        let (mid, given, more) = hands_out [] m e rest is in
        let (m', drained, same) = process_queue-process_events rest fuel mid more (omega arith) in
        let told : num_events m ≡ suc (length rest) = counts m ∙ ap length is in
        let busy : (num_events m == 0) ≡ false = ground (arith, told) in
        (
          m',
          drained,
          λ cache.
              rw (busy, process_queue, given)
                (beside_one m' (convert b world groups debug e cache)
                  (process_events b world groups debug rest) (process_queue fuel mid) same),
        )
