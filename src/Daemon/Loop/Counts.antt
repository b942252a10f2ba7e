-- ===== src/Daemon/Loop/Counts.antt =====
-- What the turns of the threads do to the counts.
use keyfrog.Base.{
  ℕ, suc, ℤ, pos, ◌+ℤ◌, +ℤ_zero, +ℤ_assoc, ◌≡◌, refl, sym, ap, ◌∙◌, Bool, false, List, [], ◌∷◌,
  arith, eq_ℤ, All, length, ◌≤◌,
}
use keyfrog.Storage.{Storage, StorageLaws}
use keyfrog.Storage.Manager.{Boost, BoostLaws}
use keyfrog.Storage.Manager.Conserve.{Reliable, accounted}
use keyfrog.Process.Graph.{Bgl}
use keyfrog.Process.Manager.{ProcessManager, ProcessManagerLaws}
use keyfrog.Filter.{FilterConfig, no_group}
use keyfrog.Event.{World, Event, ok}
use keyfrog.Daemon.Counts.{counted}
use keyfrog.Daemon.Loop.{Turn, goes_round, commits, refreshes, Running, take_turns}
use keyfrog.Daemon.Loop.Sound.{
  to_come, IsSound, IsSteady, go_round-IsSound, commit-IsSound, refresh-IsSound,
}

-- The events with the times of the rounds that handle them.
unfoldable pub stamped : {Sight : Type 0} → List (Turn Sight) → List Event → List (ℤ × Event)
stamped [] events = []
stamped (commits ∷ turns) events = stamped turns events
stamped (refreshes sight ∷ turns) events = stamped turns events
stamped (goes_round now ∷ turns) [] = []
stamped (goes_round now ∷ turns) (event ∷ events) = (now, event) ∷ stamped turns events

-- How often the daemon goes round.
unfoldable pub count_rounds : {Sight : Type 0} → List (Turn Sight) → ℕ
count_rounds [] = 0
count_rounds (commits ∷ turns) = count_rounds turns
count_rounds (refreshes sight ∷ turns) = count_rounds turns
count_rounds (goes_round now ∷ turns) = suc (count_rounds turns)

module _ (boost : Boost) (laws : BoostLaws boost) (storage : Storage) (keeps : StorageLaws storage)
    (reliable : Reliable storage) (b : Bgl) (manager : ProcessManager b)
    (promises : ProcessManagerLaws b manager) (world : World b) (groups : FilterConfig)
    (debug : Bool) (label : ℕ → ℤ) where
  open manager use {Sight}

  -- In any order of the turns, with no more rounds than events to come, the threads go on, and
  -- what is accounted for grows by the key presses handled.
  pub take_turns-accounted :
      (turns : List (Turn Sight)) (events : List Event) (r : Running boost storage b) (c g : ℤ)
      → IsSound boost laws storage keeps reliable b manager promises world groups debug label r
      → All (IsSteady b manager promises world groups label) turns
      → to_come boost laws storage keeps reliable b manager promises world groups debug label r
        ≡ events
      → count_rounds turns ≤ length events
      → eq_ℤ g no_group ≡ false
      → (r' : Running boost storage b) × (take_turns boost storage b manager world groups debug
            turns r
          ≡ ok r')
        × IsSound boost laws storage keeps reliable b manager promises world groups debug label r'
        × (accounted boost laws storage keeps r'.state.manager c g
            ≡ accounted boost laws storage keeps r.state.manager c g
              +ℤ counted boost storage (stamped turns events) c g)
  unfolding take_turns stamped counted count_rounds
  take_turns-accounted [] events r c g sound steady come fits proper =
      (r, refl, sound, sym (+ℤ_zero _))
  take_turns-accounted (commits ∷ turns) events r c g sound (_, steady) come fits proper =
      let (mid, stepped, sound', same, sum) =
        commit-IsSound boost laws storage keeps reliable b manager promises world groups debug label
          r sound in
      let (r', ran, final, total) =
        take_turns-accounted turns events mid c g sound' steady (same ∙ come) fits proper in
      (
        r',
        rw (stepped, take_turns) ran,
        final,
        total ∙ ap (λ a. a +ℤ counted boost storage (stamped turns events) c g) (sum c g),
      )
  take_turns-accounted (refreshes sight ∷ turns) events r c g sound (steady, more) come fits
        proper =
      let (t, went, sound') =
        refresh-IsSound boost laws storage keeps reliable b manager promises world groups debug
          label sight r sound steady in
      let (r', ran, final, total) =
        take_turns-accounted turns events (record r { tree = t }) c g sound' more come fits
          proper in
      (r', rw (went, take_turns) ran, final, total)
  take_turns-accounted (goes_round now ∷ turns) [] r c g sound steady come fits proper =
      absurd (ground arith)
  take_turns-accounted (goes_round now ∷ turns) (event ∷ events) r c g sound (_, steady) come fits
        proper =
      let (mid, went, sound', more, sum) =
        go_round-IsSound boost laws storage keeps reliable b manager promises world groups debug
          label now r event events c g sound come proper in
      let (r', ran, final, total) =
        take_turns-accounted turns events mid c g sound' steady more (ground arith) proper in
      (
        r',
        rw (went, take_turns) ran,
        final,
        ground (
          arith,
          total,
          sum,
          +ℤ_assoc (accounted boost laws storage keeps r.state.manager c g) (pos 1)
              (counted boost storage (stamped turns events) c g),
        ),
      )
