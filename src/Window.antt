-- ===== src/Window.antt =====
-- src/KfWindow.h and src/KfWindowCache.cpp: what the program knows of each X11 window.
pub mod Server
pub mod Resolve
pub mod Cache
pub mod Honest
use keyfrog.Base.{
  ℕ, zero, suc, ℤ, pos, Bool, true, false, ◌||◌, List, [], ◌∷◌, Option, none, some, ◌==◌, eq_ℤ,
  if◌then◌else◌,
}
use keyfrog.Base.Text.{Text, text}
use keyfrog.Base.Key.{nat_key}
use keyfrog.Base.Map.{find, insert, erase}
use Server.{Hint, XServer}

-- `KfWindow`
pub record KfWindow : Type 0 where
  pub class_name : Text
  pub class_name_ok : Bool
  pub client_pid : ℤ
  pub client_pid_ok : Bool

-- `KfWindow()`; the pid is not set, and is read only behind its flag.
abbrev pub new_window : KfWindow
new_window = record {
  class_name = [];
  class_name_ok = false;
  client_pid = pos 0;
  client_pid_ok = false;
}

-- `m_currentCacheEntry`: no constructor sets it.
pub data Current : Type 0 where
  unset at_end : Current
  at : ℕ → Current

pub record KfWindowCache : Type 0 where
  pub windows : List (ℕ × KfWindow)
  pub current : Current

abbrev pub new_cache : KfWindowCache
new_cache = record { windows = []; current = unset }

infixl 5 ◌>>=◌
abbrev pub ◌>>=◌ {ℓ κ} : {A : Type ℓ} {B : Type κ} → Option A → (A → Option B) → Option B
none >>= f = none
some a >>= f = f a

-- `ptr && strlen(ptr) > 0`, and what stands in the other branch
unfoldable pub first_nonempty : Option Text → Text → Text
first_nonempty (some (c ∷ s)) other = c ∷ s
first_nonempty _ other = other

-- The name that a class hint gives: CLASS, or else NAME, or else a mark.
unfoldable pub hint_name : Hint → Text
unfolding first_nonempty
hint_name h = first_nonempty h.res_class (first_nonempty h.res_name (text "<unknown>"))

module _ (server : XServer) where
  -- `resolveClassName`: up the window tree to the first window with a class hint. `none` stands for
  -- a loop that has not ended.
  unfoldable pub resolve_class_name : ℕ → ℕ → Option Text
  unfolding hint_name
  resolve_class_name zero win_id = none
  resolve_class_name (suc fuel) win_id = elim (server.class_hint win_id) [
    | some hint ↦ some (hint_name hint)
    | none ↦ elim (server.query_tree win_id) [
      | none ↦ some []
      | some (root, parent) ↦
          let rest = resolve_class_name fuel parent in
          if parent == root || parent == 0 then some [] else rest
    ]
  ]

  -- The loop of `resolveClientPid`: the same walk, to the first window with a class hint, whose
  -- property is read.
  unfoldable pub resolve_client_pid_loop : ℕ → ℕ → Option ℤ
  resolve_client_pid_loop zero win_id = none
  resolve_client_pid_loop (suc fuel) win_id = elim (server.class_hint win_id) [
    | some _ ↦ elim (server.net_wm_pid win_id) [ none ↦ some (pos 0) | some pid ↦ some pid ]
    | none ↦ elim (server.query_tree win_id) [
      | none ↦ some (pos 0)
      | some (root, parent) ↦
          let rest = resolve_client_pid_loop fuel parent in
          if parent == root || parent == 0 then some (pos 0) else rest
    ]
  ]

  -- `resolveClientPid`
  unfoldable pub resolve_client_pid : ℕ → ℕ → Option ℤ
  unfolding resolve_client_pid_loop
  resolve_client_pid fuel win_id =
      if server.has_pid_atom then resolve_client_pid_loop fuel win_id else some (pos 0)

  -- `fetchClassName`. `none` is also a comparison of the iterator that was never set, or a read
  -- behind one that points nowhere.
  unfoldable pub fetch_class_name : ℕ → KfWindowCache → Option (Text × KfWindowCache)
  unfolding resolve_class_name
  fetch_class_name fuel cache = elim cache.current [
    | unset ↦ none
    | at_end ↦ some ([], cache)
    | at win_id ↦ do
      info ← find win_id cache.windows
      let resolved = do
        name ← resolve_class_name fuel win_id
        let info' : KfWindow = record info { class_name = name; class_name_ok = true }
        some (name, record cache { windows = insert win_id info' cache.windows })
      if info.class_name_ok then some (info.class_name, cache) else resolved
  ]

  -- `fetchClientPid`: a pid of 0 is not kept.
  unfoldable pub fetch_client_pid : ℕ → KfWindowCache → Option (ℤ × KfWindowCache)
  unfolding resolve_client_pid
  fetch_client_pid fuel cache = elim cache.current [
    | unset ↦ none
    | at_end ↦ some (pos 0, cache)
    | at win_id ↦ do
      info ← find win_id cache.windows
      let resolved = do
        pid ← resolve_client_pid fuel win_id
        let info' : KfWindow = record info { client_pid = pid; client_pid_ok = true }
        some (
          pid,
          (if eq_ℤ pid (pos 0)
              then cache
              else record cache { windows = insert win_id info' cache.windows }),
        )
      if info.client_pid_ok then some (info.client_pid, cache) else resolved
  ]

-- `findAndUseWindow`, which always answers true.
unfoldable pub find_and_use_window : ℕ → KfWindowCache → KfWindowCache
find_and_use_window window cache = elim (find window cache.windows) [
  | some _ ↦ record cache { current = at window }
  | none ↦ record cache { windows = insert window new_window cache.windows; current = at window }
]

-- `currentWindow`, or 0
unfoldable pub current_window : KfWindowCache → Option ℕ
current_window cache = elim cache.current [ unset ↦ none | at_end ↦ some 0 | at w ↦ some w ]

-- `invalidateEntry`
unfoldable pub invalidate_entry : KfWindowCache → Option KfWindowCache
invalidate_entry cache = elim cache.current [
  | unset ↦ none
  | at_end ↦ some cache
  | at w ↦ some (record cache { windows = erase w cache.windows; current = at_end })
]
