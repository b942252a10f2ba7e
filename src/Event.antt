-- ===== src/Event.antt =====
-- src/Event.h and src/EventFilter.cpp: raw events become events with a group.
pub mod Decide
pub mod Recorded
pub mod Told
pub mod Labels
pub mod Queue
pub mod Between
use keyfrog.Base.{
  inr, inl, ◌⊎◌, ◌≡◌, ℕ, ℤ, pos, Bool, true, false, not, ◌&&◌, ◌||◌, ◌≡◌, ◌⊎◌, inl, inr, refl, List,
  [], ◌∷◌, ◌++◌, Option, none, some, ◌==◌, eq_ℤ, if◌then◌else◌,
}
use keyfrog.Base.Text.{Text, text}
use keyfrog.Window.Server.{XServer}
use keyfrog.Window.{KfWindowCache, find_and_use_window, fetch_class_name, fetch_client_pid}
use keyfrog.Process.Graph.{Bgl}
use keyfrog.Process.Tree.{Tree, fetch_descendants, fetch_name}
use keyfrog.Filter.{FilterConfig, no_group, match_term_proc, match_proc, match_window_class}
use keyfrog.Monitor.{RawEvent, Monitor, key_press, destroy_notify, focus_in}

-- `EventType`
pub data EventType : Type 0 where
  kf_key_press kf_destroy_notify kf_focus_in : EventType

-- `Event`, with `none` for a member that was not set.
pub record Event : Type 0 where
  pub dest_win : Option ℕ
  pub group_id : Option ℤ
  pub time : ℤ
  pub type : Option EventType

-- How a step of the filter ends. `diverged` is a walk that does not end, or a read behind an iterator
-- that points nowhere; `threw` is the exception that debug builds throw.
pub data Result (A : Type 0) : Type 0 where
  ok : A → Result A
  diverged threw : Result A

infixl 5 ◌>>=◌
abbrev pub ◌>>=◌ : {A B : Type 0} → Result A → (A → Result B) → Result B
ok a >>= f = f a
diverged >>= f = diverged
threw >>= f = threw

abbrev pub lift : {A : Type 0} → Option A → Result A
lift none = diverged
lift (some a) = ok a

-- What the filter asks of its surroundings while it handles an event: the X server's answers, the
-- process tree, Boost's `iends_with`, and how long a walk may be.
pub record World (b : Bgl) : Type 0 where
  pub server : XServer
  pub tree : Tree b
  pub iends_with : Text → Text → Bool
  pub fuel : ℕ

module _ (b : Bgl) (world : World b) (groups : FilterConfig) where
  open world use {server, tree, iends_with, fuel}

  -- The test for a terminal.
  unfoldable pub is_terminal : Text → Bool
  is_terminal class_name =
      iends_with class_name (text "term")
      || iends_with class_name (text "rxvt")
      || iends_with class_name (text "konsole")
      || iends_with class_name (text "xterminal")

  -- `pid != -1 && pid != 0`
  unfoldable pub is_pid : ℤ → Bool
  is_pid pid = not (eq_ℤ pid no_group) && not (eq_ℤ pid (pos 0))

  -- The first match: the processes below a terminal's.
  unfoldable pub match_terminal : Text → KfWindowCache → Result (ℤ × KfWindowCache)
  unfolding is_terminal is_pid
  match_terminal class_name cache =
      let inside = (do
        (pid, cache') ← lift (fetch_client_pid server fuel cache)
        let below = do
          dprocs ← lift (fetch_descendants b fuel pid tree)
          ok (match_term_proc groups dprocs, cache')
        if is_pid pid then below else ok (no_group, cache')) in
      if is_terminal class_name then inside else ok (no_group, cache)

  -- The second: the process that owns the window.
  unfoldable pub match_owner : KfWindowCache → Result (ℤ × KfWindowCache)
  unfolding is_pid
  match_owner cache = do
    (pid, cache') ← lift (fetch_client_pid server fuel cache)
    ok ((if is_pid pid then match_proc groups (fetch_name b pid tree) else no_group), cache')

  -- `setGroupId`: the group id that the event gets, and the cache.
  unfoldable pub set_group_id : ℕ → KfWindowCache → Result (ℤ × KfWindowCache)
  unfolding match_terminal match_owner find_and_use_window
  set_group_id window cache = do
    (class_name, named) ← lift (fetch_class_name server fuel (find_and_use_window window cache))
    (inside, cache') ← match_terminal class_name named
    let owner = match_owner cache'
    (gid, cache'') ← (if eq_ℤ inside no_group then owner else ok (inside, cache'))
    ok ((if eq_ℤ gid no_group then match_window_class groups class_name else gid), cache'')

  -- One round of the loop of `processEvents`; `debug` is the build option that throws on a type that
  -- the switch does not know.
  unfoldable pub convert :
      (debug : Bool) → RawEvent → KfWindowCache → Result (Event × KfWindowCache)
  convert debug raw_event cache =
      let datum = raw_event.datum in
      let press = (do
        (gid, cache') ← set_group_id datum.pointer_window cache
        let event : Event = record {
          dest_win = some datum.pointer_window;
          group_id = some gid;
          time = raw_event.time;
          type = some kf_key_press;
        }
        ok (event, cache')) in
      let destroyed : Event = record {
        dest_win = some datum.destroyed_window;
        group_id = none;
        time = raw_event.time;
        type = some kf_destroy_notify;
      } in
      let focused : Event = record {
        dest_win = none;
        group_id = none;
        time = raw_event.time;
        type = some kf_focus_in;
      } in
      let other : Event = record {
        dest_win = none;
        group_id = none;
        time = raw_event.time;
        type = none;
      } in
      if datum.type == key_press
      then press
      else if datum.type == destroy_notify
      then ok (destroyed, cache)
      else if datum.type == focus_in
      then ok (focused, cache)
      else if debug
      then threw
      else ok (other, cache)

  -- `processEvents`, over the queue of the monitor.
  unfoldable pub process_events :
      Bool → List RawEvent → KfWindowCache → Result (List Event × KfWindowCache)
  unfolding convert
  process_events debug [] cache = ok ([], cache)
  process_events debug (raw_event ∷ rest) cache = do
    (event, cache') ← convert debug raw_event cache
    (events, cache'') ← process_events debug rest cache'
    ok (event ∷ events, cache'')
