-- ===== src/Daemon/Counts.antt =====
-- From events to counts: what the main loop adds to the storage.
use keyfrog.Base.{
  ℕ, ℤ, pos, ◌+ℤ◌, +ℤ_zero, +ℤ_assoc, ◌≡◌, refl, inl, inr, Bool, false, ◌&&◌, List, [], ◌∷◌, none,
  some, arith, eq_ℤ, eq_ℤ_iff, if◌then◌else◌, Option-cases, All,
}
use keyfrog.Storage.{Storage, StorageLaws}
use keyfrog.Storage.Manager.{Boost, BoostLaws}
use keyfrog.Storage.Manager.Conserve.{accounted, press-accounted}
use keyfrog.Window.Cache.{invalidate_entry-find_and_use_window}
use keyfrog.Filter.{no_group}
use keyfrog.Event.{Event, EventType, kf_key_press, kf_destroy_notify, kf_focus_in}
use keyfrog.Daemon.{State, press_now, handle, handle_all}

-- A key press of a group.
abbrev pub is_counted : Event → ℤ → Bool
is_counted event g = elim event.type [
  | none ↦ false
  | some kind ↦ elim kind [
    | kf_key_press ↦ elim event.group_id [ none ↦ false | some gid ↦ eq_ℤ gid g ]
    | _ ↦ false
  ]
]

-- What was set that the main loop reads: a key press has a group and a destroyed window an id.
pub data IsComplete (event : Event) : Type 0 where
  key_pressed :
      (gid : ℤ) → event.type ≡ some kf_key_press → event.group_id ≡ some gid → IsComplete event
  focused : event.type ≡ some kf_focus_in → IsComplete event
  destroyed :
      (w : ℕ) → event.type ≡ some kf_destroy_notify → event.dest_win ≡ some w → IsComplete event

module _ (boost : Boost) (storage : Storage) where
  -- The key presses of a group that fall into a cluster.
  unfoldable pub counted : List (ℤ × Event) → (cluster group : ℤ) → ℤ
  counted [] c g = pos 0
  counted ((now, event) ∷ rest) c g =
      if eq_ℤ (storage.get_cluster_start now) c && is_counted event g
      then pos 1 +ℤ counted rest c g
      else counted rest c g

module _ (boost : Boost) (laws : BoostLaws boost) (storage : Storage)
    (keeps : StorageLaws storage) where
  abbrev sum : State boost storage → ℤ → ℤ → ℤ
  sum s = accounted boost laws storage keeps s.manager

  pub handle-accounted :
      (now : ℤ) (event : Event) (s s' : State boost storage) (c g : ℤ)
      → (eq_ℤ g no_group ≡ false)
      → handle boost storage now event s ≡ some s'
      → sum s' c g ≡ (
          if eq_ℤ (storage.get_cluster_start now) c && is_counted event g
          then sum s c g +ℤ pos 1
          else sum s c g)
  unfolding handle press_now
  handle-accounted now event s s' c g proper e = elim (Option-cases event.type) [
    | inl unset ↦ ground arith
    | inr (kind, is) ↦ by_kind kind is
  ]
    where
      by_kind :
          (kind : EventType)
          → event.type ≡ some kind
          → sum s' c g ≡ (
              if eq_ℤ (storage.get_cluster_start now) c && is_counted event g
              then sum s c g +ℤ pos 1
              else sum s c g)
      by_kind kf_key_press is = elim (Option-cases event.group_id) [
        | inl unset ↦ ground arith
        | inr (gid, group) ↦ ground (
          arith,
          press-accounted boost laws storage keeps gid now (pos 1) s.manager c g,
          eq_ℤ_iff gid g,
          eq_ℤ_iff gid no_group,
          eq_ℤ_iff g no_group,
        )
      ]
      by_kind kf_focus_in is = ground arith
      by_kind kf_destroy_notify is = ground arith

  -- If the main loop handles a list of events, then for each cluster and each group other than -1
  -- the presses accounted for grow by the number of key presses of that group that were handled in
  -- that cluster.
  pub handle_all-accounted :
      (rounds : List (ℤ × Event)) (s s' : State boost storage) (c g : ℤ)
      → eq_ℤ g no_group ≡ false
      → handle_all boost storage rounds s ≡ some s'
      → sum s' c g ≡ sum s c g +ℤ counted boost storage rounds c g
  unfolding handle_all counted
  handle_all-accounted [] s s' c g proper e = ground (arith, +ℤ_zero (sum s c g))
  handle_all-accounted ((now, event) ∷ rest) s s' c g proper e =
      elim (Option-cases (handle boost storage now event s)) [
        | inl stopped ↦ cc (rw (stopped, handle_all) at e)
        | inr (mid, handled) ↦
            let first = handle-accounted now event s mid c g proper handled in
            let later =
              handle_all-accounted rest mid s' c g proper (rw (handled, handle_all) at e) in
            ground
              (arith, first, later, +ℤ_assoc (sum s c g) (pos 1) (counted boost storage rest c g))
      ]

module _ (boost : Boost) (storage : Storage) where
  pub handle_returns :
      (now : ℤ) (event : Event) (s : State boost storage)
      → IsComplete event
      → (s' : State boost storage) × (handle boost storage now event s ≡ some s')
  unfolding handle
  handle_returns now event s (key_pressed gid kind group) = (
    (if eq_ℤ gid no_group then s else press_now boost storage now gid s),
    rw (kind, group, handle),
  )
  handle_returns now event s (focused kind) = (s, rw (kind, handle))
  handle_returns now event s (destroyed w kind win) =
      let (after, gone, _, _) = invalidate_entry-find_and_use_window w w s.windows in
      (record s { windows = after }, rw (kind, win, gone, handle))

  -- The main loop handles every list of events in which a key press has a group, a destroyed window
  -- has an id, and each other event is a focus change: no unset member and no unset iterator is
  -- used.
  pub handle_all_returns :
      (rounds : List (ℤ × Event)) (s : State boost storage)
      → All (λ (e : ℤ × Event). IsComplete e.1) rounds
      → (s' : State boost storage) × (handle_all boost storage rounds s ≡ some s')
  unfolding handle_all
  handle_all_returns [] s h = (s, refl)
  handle_all_returns ((now, event) ∷ rest) s h =
      let (mid, handled) = handle_returns now event s h.0 in
      let (s', done) = handle_all_returns rest mid h.1 in (s', rw (handled, handle_all) done)
