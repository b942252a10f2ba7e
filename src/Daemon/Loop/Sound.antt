-- ===== src/Daemon/Loop/Sound.antt =====
-- What holds between the turns of the threads, and that every turn keeps it.
use keyfrog.Base.{
  ℕ, ℤ, pos, ◌+ℤ◌, ◌≡◌, refl, sym, Bool, false, List, [], ◌∷◌, some, eq_ℤ, All, if◌then◌else◌, ◌&&◌,
  subst,
}
use keyfrog.Storage.{Storage, StorageLaws}
use keyfrog.Storage.Manager.{Boost, BoostLaws}
use keyfrog.Storage.Manager.Conserve.{Reliable, IsKeyed, accounted, commit_step-accounted}
use keyfrog.Process.Graph.{Bgl}
use keyfrog.Process.{ProcessMap}
use keyfrog.Process.Tree.{Tree, clear, add_connect_processes, returned}
use keyfrog.Process.Manager.{ProcessManager, ProcessManagerLaws}
use keyfrog.Process.Refresh.{event_loop}
use keyfrog.Filter.{FilterConfig, no_group}
use keyfrog.Event.{World, Event, ok}
use keyfrog.Event.Labels.{Labels}
use keyfrog.Daemon.{next_event, Intercept, KfWindowCache, Filter, State, handle}
use keyfrog.Daemon.Counts.{IsComplete, is_counted, handle-accounted, handle_returns}
use keyfrog.Daemon.Records.{handle-IsKeyed}
use keyfrog.Daemon.Loop.{Turn, goes_round, commits, refreshes, Running, go_round, commit, refresh}
use keyfrog.Daemon.Loop.Handled.{handle-IsHonest}
use keyfrog.Daemon.Loop.Upcoming.{upcoming, Ready, next_event-upcoming}

module _ (b : Bgl) (manager : ProcessManager b) (promises : ProcessManagerLaws b manager)
    (world : World b) (groups : FilterConfig) (label : ℕ → ℤ) where
  open manager use {Sight}

  -- A round of the process monitor gives a tree that tells the same groups.
  abbrev pub IsSteady : Turn Sight → Type 0
  IsSteady (goes_round now) = Unit
  IsSteady commits = Unit
  IsSteady (refreshes sight) =
      (procs : ProcessMap) × (answer : Bool) × (t : Tree b) × promises.Shows sight procs
      × (add_connect_processes b world.fuel procs (clear b) ≡ returned answer t)
      × Labels b (record world { tree = t }) groups label

module _ (boost : Boost) (laws : BoostLaws boost) (storage : Storage) (keeps : StorageLaws storage)
    (reliable : Reliable storage) (b : Bgl) (manager : ProcessManager b)
    (promises : ProcessManagerLaws b manager) (world : World b) (groups : FilterConfig)
    (debug : Bool) (label : ℕ → ℤ) where
  open manager use {Sight}

  abbrev pub Run : Type 0
  Run = Running boost storage b

  abbrev pub to_come : Run → List Event
  to_come r = upcoming b world groups debug label r.filter r.arriving

  -- What holds between the turns.
  pub record IsSound (r : Run) : Type 0 where
    pub ready : Ready b world groups debug label r.filter r.state.windows r.arriving
    pub complete : All IsComplete (to_come r)
    pub labelled : Labels b (record world { tree = r.tree }) groups label
    pub keyed : IsKeyed boost storage r.state.manager

  go_round_lem :
      (now : ℤ) (r : Run) (event : Event) (f' : Filter) (cache' : KfWindowCache)
      (later : List (List Intercept)) (s' : State boost storage)
      → next_event b
          (record world { tree = r.tree })
          groups
          debug
          r.arriving
          r.filter
          r.state.windows
        ≡ ok ((event, f', cache'), later)
      → handle boost storage now event (record r.state { windows = cache' }) ≡ some s'
      → go_round boost storage b manager world groups debug now r
        ≡ ok (record r { filter = f'; state = s'; arriving = later })
  unfolding go_round
  go_round_lem now r event f' cache' later s' given handled = rw (given, handled) refl

  pub go_round-IsSound :
      (now : ℤ) (r : Run) (event : Event) (rest : List Event) (c g : ℤ)
      → IsSound r
      → to_come r ≡ event ∷ rest
      → eq_ℤ g no_group ≡ false
      → (r' : Run) × (go_round boost storage b manager world groups debug now r ≡ ok r')
        × IsSound r'
        × (to_come r' ≡ rest)
        × (accounted boost laws storage keeps r'.state.manager c g ≡ (
            if eq_ℤ (storage.get_cluster_start now) c && is_counted event g
            then accounted boost laws storage keeps r.state.manager c g +ℤ pos 1
            else accounted boost laws storage keeps r.state.manager c g))
  unfolding go_round
  go_round-IsSound now r event rest c g sound is proper =
      let (f', cache', later, given, more, ready) =
        next_event-upcoming b (record world { tree = r.tree }) groups debug label r.filter
          r.state.windows r.arriving event rest sound.labelled sound.ready is in
      let complete = subst (All IsComplete) is sound.complete in
      let mid = record r.state { windows = cache' } in
      let (s', handled) = handle_returns boost storage now event mid complete.0 in
      (
        record r { filter = f'; state = s'; arriving = later },
        go_round_lem now r event f' mid.windows later s' given handled,
        record {
          ready = (
            ready.0,
            handle-IsHonest boost storage b world now event mid s' complete.0 handled ready.1,
            ready.2,
          );
          complete = subst (All IsComplete) (sym more) complete.1;
          labelled = sound.labelled;
          keyed = handle-IsKeyed boost laws storage keeps now event mid s' handled sound.keyed;
        },
        more,
        handle-accounted boost laws storage keeps now event mid s' c g proper handled,
      )

  pub commit-IsSound :
      (r : Run)
      → IsSound r
      → (r' : Run) × (commit boost storage b manager world groups debug r ≡ ok r')
        × IsSound r'
        × (to_come r' ≡ to_come r)
        × ((c g : ℤ)
            → accounted boost laws storage keeps r'.state.manager c g
              ≡ accounted boost laws storage keeps r.state.manager c g)
  unfolding commit
  commit-IsSound r sound =
      let (m', stepped, keyed, same) =
        commit_step-accounted boost laws storage keeps reliable r.state.manager sound.keyed in
      (
        record r { state = record r.state { manager = m' } },
        rw (commit, stepped) refl,
        record {
          ready = sound.ready;
          complete = sound.complete;
          labelled = sound.labelled;
          keyed = keyed;
        },
        refl,
        same,
      )

  event_loop_once :
      (sight : Sight) (procs : ProcessMap) (answer : Bool) (t tree : Tree b)
      → promises.Shows sight procs
      → add_connect_processes b world.fuel procs (clear b) ≡ returned answer t
      → event_loop b manager world.fuel (sight ∷ []) tree ≡ some t
  unfolding event_loop
  event_loop_once sight procs answer t tree shown built =
      rw (event_loop, promises.builds sight procs world.fuel tree shown, built) refl

  pub refresh-IsSound :
      (sight : Sight) (r : Run)
      → IsSound r
      → IsSteady b manager promises world groups label (refreshes sight)
      → (t : Tree b) × (refresh boost storage b manager world groups debug sight r
          ≡ ok (record r { tree = t }))
        × IsSound (record r { tree = t })
  unfolding refresh
  refresh-IsSound sight r sound (procs, answer, t, shown, built, labelled) = (
    t,
    rw (refresh, event_loop_once sight procs answer t r.tree shown built) refl,
    record {
      ready = sound.ready;
      complete = sound.complete;
      labelled = labelled;
      keyed = sound.keyed;
    },
  )
