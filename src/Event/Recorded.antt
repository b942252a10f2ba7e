-- ===== src/Event/Recorded.antt =====
-- The monitor and the filter together: what the X server records becomes complete events.
use keyfrog.Base.{
  ◌∙◌, ap, ℤ, ◌==◌, ℕ, ◌≡◌, ◌⊎◌, inl, inr, Bool, true, false, not, ◌&&◌, ◌||◌, List, [], ◌∷◌, some,
  arith, Bool-cases, All, map, if◌then◌else◌,
}
use keyfrog.Base.Text.{Text}
use keyfrog.Window.{KfWindowCache}
use keyfrog.Process.Graph.{Bgl}
use keyfrog.Filter.{FilterConfig}
use keyfrog.Monitor.{Intercept, key_press, destroy_notify, new_monitor, process_replies}
use keyfrog.Monitor.Callback.{raw, fresh, is_key, is_repeat, process_replies_lem}
use keyfrog.Monitor.Connect.{Server, Recorder, connect}
use keyfrog.Monitor.Recorded.{delivers, delivers-connect}
use keyfrog.Event.{World, ok, process_events}
use keyfrog.Window.Honest.{IsHonest}
use keyfrog.Event.Labels.{Labels, event_of, process_events-event_of}
use keyfrog.Event.Decide.{IsKnown}

-- The reply is not from the server, or of a type that is recorded.
abbrev pub IsDelivered : Recorder → Intercept → Type 0
IsDelivered r hook = (hook.from_server ≡ false) ⊎ (delivers r.rec_ranges hook.datum.type ≡ true)

module _ (b : Bgl) (world : World b) (groups : FilterConfig) where
  -- The reply is not from the server, or of a type that the filter knows.
  abbrev pub IsHandled : Intercept → Type 0
  IsHandled hook = (hook.from_server ≡ false) ⊎ IsKnown b world groups (raw hook)

  pub fresh-IsKnown :
      (pc : ℕ) (hooks : List Intercept)
      → All IsHandled hooks
      → All (IsKnown b world groups) (map raw (fresh pc hooks))
  unfolding fresh
  fresh-IsKnown pc [] h = tt
  fresh-IsKnown pc (hook ∷ rest) (h, more) =
      let later = fresh-IsKnown (if is_key hook then hook.datum.detail else pc) rest more in
      elim (Bool-cases (hook.from_server && not (is_repeat pc hook))) [
        | inr skipped ↦ rw skipped later
        | inl kept ↦
            rw kept (elim h [ inl foreign ↦ absurd (ground arith) | inr known ↦ (known, later) ])
      ]

  -- The types that are recorded are those that the filter knows.
  pub delivered-IsHandled :
      (r : Recorder) (hooks : List Intercept)
      → ((type : ℕ) → delivers r.rec_ranges type ≡ (type == key_press || type == destroy_notify))
      → All (IsDelivered r) hooks
      → All IsHandled hooks
  delivered-IsHandled r [] types h = tt
  delivered-IsHandled r (hook ∷ rest) types (delivered, more) = (
    elim delivered [
      | inl foreign ↦ inl foreign
      | inr recorded ↦ inr (elim (Bool-cases (hook.datum.type == key_press)) [
        | inl key ↦ inl (ground arith)
        | inr other ↦ inr (inl (ground (arith, types hook.datum.type)))
      ])
    ],
    delivered-IsHandled r rest types more,
  )

  -- Where connect of the monitor answered true, the replies are not from the server or are of a
  -- type that its record ranges deliver, and the X server and the process tree tell a group of the
  -- configuration for each window, where the walks over windows end and the descendants of a pid
  -- are gathered wherever the filter asks for them: with a window cache that holds what the server
  -- tells, processing the replies of a round and then the raw events that they queue gives one
  -- event for each of them, in their order, a key press with its window, its time and the group of
  -- that window, the end of a window with that window and its time, and a change of focus with its
  -- time, and leaves such a cache.
  pub process_events-connect :
      (label : ℕ → ℤ) (x : Server) (name : Text) (r r' : Recorder) (hooks : List Intercept)
      (debug : Bool) (cache : KfWindowCache)
      → connect x name r ≡ some (true, r')
      → All (IsDelivered r') hooks
      → Labels b world groups label
      → IsHonest world.server world.fuel cache
      → (after : KfWindowCache) × (process_events b world groups debug
            (process_replies hooks new_monitor).events
            cache
          ≡ ok (map (event_of b world groups label) (map raw (fresh 0 hooks)), after))
        × IsHonest world.server world.fuel after
  process_events-connect label x name r r' hooks debug cache connected delivered labels honest =
      let (_, _, (_, _, types, _)) = delivers-connect x name r r' true connected in
      let known = fresh-IsKnown 0 hooks (delivered-IsHandled r' hooks types delivered) in
      let queued : (process_replies hooks new_monitor).events ≡ map raw (fresh 0 hooks) =
        ap (λ m. m.events) (process_replies_lem hooks new_monitor) in
      let (after, e, honest') =
        process_events-event_of b world groups label debug (map raw (fresh 0 hooks)) cache labels
          honest known in
      (after, ap (λ q. process_events b world groups debug q cache) queued ∙ e, honest')
