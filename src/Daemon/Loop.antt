-- ===== src/Daemon/Loop.antt =====
-- The loop of `run` of src/Daemon.cpp, as it takes its events from the filter, and beside it the
-- committer of src/StorageManager.cpp and the process monitor of src/ProcessMonitor.cpp.
pub mod Upcoming
pub mod Handled
pub mod Sound
pub mod Counts
pub mod Records
use keyfrog.Base.{ℤ, Bool, List, [], ◌∷◌, Option, none, some}
use keyfrog.Storage.{Storage}
use keyfrog.Storage.Manager.{Boost, commit_step}
use keyfrog.Process.Graph.{Bgl}
use keyfrog.Process.Tree.{Tree}
use keyfrog.Process.Manager.{ProcessManager}
use keyfrog.Process.Refresh.{event_loop}
use keyfrog.Filter.{FilterConfig}
use keyfrog.Monitor.{Intercept}
use keyfrog.Event.{World, Result, ok, diverged, threw, ◌>>=◌, lift}
use keyfrog.Daemon.{State, handle, Filter, next_event}

-- The thread whose turn it is: the daemon's goes once round its loop, at the time given, the
-- committer's makes a step, and the process monitor's goes once round its own, with what the system
-- then shows.
pub data Turn (Sight : Type 0) : Type 0 where
  goes_round : (now : ℤ) → Turn Sight
  commits : Turn Sight
  refreshes : (sight : Sight) → Turn Sight

module _ (boost : Boost) (storage : Storage) (b : Bgl) where
  -- The filter, the daemon, the replies of the X server that are still to come, and the process tree.
  pub record Running : Type 0 where
    pub filter : Filter
    pub state : State boost storage
    pub arriving : List (List Intercept)
    pub tree : Tree b

module _ (boost : Boost) (storage : Storage) (b : Bgl) (manager : ProcessManager b)
    (world : World b) (groups : FilterConfig) (debug : Bool) where
  open manager use {Sight}

  -- The surroundings, with the tree as it is.
  abbrev pub seen_with : Tree b → World b
  seen_with tree = record world { tree = tree }

  -- Once round the loop of `run`: the next event, then the switch.
  unfoldable pub go_round : ℤ → Running boost storage b → Result (Running boost storage b)
  go_round now r = do
    ((event, filter, cache), arriving) ←
        next_event b (seen_with r.tree) groups debug r.arriving r.filter r.state.windows
    state ← lift (handle boost storage now event (record r.state { windows = cache }))
    ok (record r { filter = filter; state = state; arriving = arriving })

  -- A step of the committer, which an exception would end.
  unfoldable pub commit : Running boost storage b → Result (Running boost storage b)
  commit r = elim (commit_step boost storage r.state.manager) [
    | none ↦ threw
    | some manager' ↦ ok (record r { state = record r.state { manager = manager' } })
  ]

  -- Once round the loop of `eventLoop`.
  unfoldable pub refresh : Sight → Running boost storage b → Result (Running boost storage b)
  refresh sight r = do
    tree ← lift (event_loop b manager world.fuel (sight ∷ []) r.tree)
    ok (record r { tree = tree })

  unfoldable pub take_turns :
      List (Turn Sight) → Running boost storage b → Result (Running boost storage b)
  unfolding go_round commit refresh
  take_turns [] r = ok r
  take_turns (goes_round now ∷ rest) r = go_round now r >>= take_turns rest
  take_turns (commits ∷ rest) r = commit r >>= take_turns rest
  take_turns (refreshes sight ∷ rest) r = refresh sight r >>= take_turns rest
