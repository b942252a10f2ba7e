-- ===== src/Event/Labels.antt =====
-- The group of a window, and the events that the filter makes while its window cache is honest.
use keyfrog.Base.{
  ℕ, ℤ, ◌≡◌, refl, ap, ◌∙◌, inl, inr, Bool, List, [], ◌∷◌, Option, none, some, map, All, arith,
  Option-cases, ◌==◌, if◌then◌else◌,
}
use keyfrog.Window.{KfWindowCache, find_and_use_window, resolve_class_name, resolve_client_pid}
use keyfrog.Window.Honest.{
  IsHonest, find_and_use_window-IsHonest, fetch_class_name-IsHonest, fetch_client_pid-IsHonest,
}
use keyfrog.Process.Graph.{Bgl}
use keyfrog.Process.Tree.{fetch_name}
use keyfrog.Filter.{FilterConfig}
use keyfrog.Monitor.{RawEvent, key_press, destroy_notify}
use keyfrog.Event.{
  World, ok, Event, kf_key_press, kf_destroy_notify, kf_focus_in, set_group_id, convert,
  process_events,
}
use keyfrog.Event.Decide.{decide, asked_below, set_group_id_asked, IsKnown}

module _ (b : Bgl) (world : World b) (groups : FilterConfig) where
  open world use {server, tree, fuel}

  -- The group of a window, as the server and the process tree tell it. Descendants are asked for where
  -- the filter asks for them.
  unfoldable pub group_of : ℕ → Option ℤ
  group_of w = elim (resolve_class_name server fuel w) [
    | none ↦ none
    | some name ↦ elim (resolve_client_pid server fuel w) [
      | none ↦ none
      | some pid ↦ elim (asked_below b world groups name pid) [
        | none ↦ none
        | some dprocs ↦ some (decide b world groups name pid dprocs (fetch_name b pid tree))
      ]
    ]
  ]

  -- With an honest cache, setGroupId gives the group of the window, and leaves an honest cache.
  pub set_group_id-group_of :
      (w : ℕ) (cache : KfWindowCache) (gid : ℤ)
      → IsHonest server fuel cache
      → group_of w ≡ some gid
      → (after : KfWindowCache) × (set_group_id b world groups w cache ≡ ok (gid, after))
        × IsHonest server fuel after
  unfolding group_of
  set_group_id-group_of w cache gid h e = elim (Option-cases (resolve_class_name server fuel w)) [
    | inl endless ↦ absurd (ground arith)
    | inr (name, named) ↦ elim (Option-cases (resolve_client_pid server fuel w)) [
      | inl endless ↦ absurd (ground arith)
      | inr (pid, owned) ↦ elim (Option-cases (asked_below b world groups name pid)) [
        | inl endless ↦ absurd (ground arith)
        | inr (dprocs, below) ↦
            let (used, start) = find_and_use_window-IsHonest server fuel w cache h in
            let (mid, name_is, used', honest') =
              fetch_class_name-IsHonest server fuel w (find_and_use_window w cache) name used start
                named in
            let (after, pid_is, _, honest) =
              fetch_client_pid-IsHonest server fuel w mid pid used' honest' owned in
            let is : decide b world groups name pid dprocs (fetch_name b pid tree) ≡ gid =
              ground (arith, named, owned, below) in
            (
              after,
              set_group_id_asked b world groups w cache mid after name pid dprocs name_is pid_is
                    below
                  ∙ ap (λ g. ok (g, after)) is,
              honest,
            )
      ]
    ]
  ]

  module _ (label : ℕ → ℤ) where
    -- Every window has the group that the label says.
    abbrev pub Labels : Type 0
    Labels = (w : ℕ) → group_of w ≡ some (label w)

    -- The event of a raw one.
    abbrev pub event_of : RawEvent → Event
    event_of r =
        let pressed : Event = record {
          dest_win = some r.datum.pointer_window;
          group_id = some (label r.datum.pointer_window);
          time = r.time;
          type = some kf_key_press;
        } in
        let destroyed : Event = record {
          dest_win = some r.datum.destroyed_window;
          group_id = none;
          time = r.time;
          type = some kf_destroy_notify;
        } in
        let focused : Event = record {
          dest_win = none;
          group_id = none;
          time = r.time;
          type = some kf_focus_in;
        } in
        if r.datum.type == key_press
        then pressed
        else if r.datum.type == destroy_notify
        then destroyed
        else focused

    convert-event_of :
        (debug : Bool) (r : RawEvent) (cache : KfWindowCache)
        → Labels
        → IsHonest server fuel cache
        → IsKnown b world groups r
        → (after : KfWindowCache) × (convert b world groups debug r cache ≡ ok (event_of r, after))
          × IsHonest server fuel after
    unfolding convert
    convert-event_of debug r cache labels h known = elim known [
      | inl key ↦
          let w = r.datum.pointer_window in
          let (after, e, honest) = set_group_id-group_of w cache (label w) h (labels w) in
          (after, ground arith, honest)
      | inr (inl gone) ↦ (cache, ground arith, h)
      | inr (inr focus) ↦ (cache, ground arith, h)
    ]

    pub process_events-event_of :
        (debug : Bool) (rs : List RawEvent) (cache : KfWindowCache)
        → Labels
        → IsHonest server fuel cache
        → All (IsKnown b world groups) rs
        → (after : KfWindowCache) × (process_events b world groups debug rs cache
            ≡ ok (map event_of rs, after))
          × IsHonest server fuel after
    unfolding process_events
    process_events-event_of debug [] cache labels h known = (cache, refl, h)
    process_events-event_of debug (r ∷ rs) cache labels h (k, more) =
        let (mid, first, honest) = convert-event_of debug r cache labels h k in
        let (after, later, honest') = process_events-event_of debug rs mid labels honest more in
        (after, rw (first, process_events, later) refl, honest')
