-- ===== src/Window/Cache.antt =====
-- The window cache: which entry is current, what a fetch keeps, and what an invalidation forgets.
use keyfrog.Base.{
  [], ℕ, ℤ, pos, ◌≡◌, refl, ◌⊎◌, inl, inr, true, List, Option, none, some, ◌==◌, eq_ℤ, eq_ℤ_iff,
  arith, Option-cases, Bool-cases, if◌then◌else◌,
}
use keyfrog.Base.Text.{Text}
use keyfrog.Base.Key.{nat_key}
use keyfrog.Base.Map.{find, insert, erase, find-insert, find-erase, find-insert_self}
use keyfrog.Window.Server.{XServer}
use keyfrog.Window.{
  KfWindow, Current, new_window, KfWindowCache, unset, at_end, at, resolve_class_name,
  resolve_client_pid, fetch_class_name, fetch_client_pid, find_and_use_window, invalidate_entry,
}

-- The iterator was set, and points at an entry or at the end.
abbrev pub Points : Current → List (ℕ × KfWindow) → Type 0
Points unset ws = ⊥
Points at_end ws = Unit
Points (at w) ws = (info : KfWindow) × (find w ws ≡ some info)

abbrev pub IsCurrent : KfWindowCache → Type 0
IsCurrent cache = Points cache.current cache.windows

-- What is known of a window.
abbrev pub info_of : ℕ → KfWindowCache → Option KfWindow
info_of w cache = find w cache.windows

-- After findAndUseWindow, from any state, the window is current, the iterator points at an entry of
-- it, which is a new one if there was none, and every other entry is as before.
pub find_and_use_window_lem :
    (w v : ℕ) (cache : KfWindowCache)
    → let after = find_and_use_window w cache in
      (after.current ≡ at w)
      × IsCurrent after
      × (info_of v after ≡ (
          if w == v
          then elim (info_of w cache) [ none ↦ some new_window | some info ↦ some info ]
          else info_of v cache))
unfolding find_and_use_window
find_and_use_window_lem w v cache = elim (Option-cases (find w cache.windows)) [
  | inl e ↦
      rw (e, find_and_use_window)
        (
          refl,
          (new_window, find-insert_self w new_window cache.windows),
          find-insert w v new_window cache.windows,
        )
  | inr (info, e) ↦ rw (e, find_and_use_window) (refl, (info, e), ground (arith, e))
]

-- After a fetchClassName that returned, another one gives the same name and leaves the cache as it
-- is, whatever the server would answer by then.
pub fetch_class_name_again :
    (server later : XServer) (fuel fuel' : ℕ) (cache : KfWindowCache) (name : Text)
    (after : KfWindowCache)
    → fetch_class_name server fuel cache ≡ some (name, after)
    → fetch_class_name later fuel' after ≡ some (name, after)
unfolding fetch_class_name
fetch_class_name_again server later fuel fuel' cache name after e = go cache.current refl
  where
    go : (c : Current) → cache.current ≡ c → fetch_class_name later fuel' after ≡ some (name, after)
    go unset u = ground arith
    go at_end u = ground arith
    go (at w) u = elim (Option-cases (find w cache.windows)) [
      | inl gone ↦ ground arith
      | inr (info, found) ↦ elim (Option-cases (resolve_class_name server fuel w)) [
        | inl open_end ↦ ground arith
        | inr (resolved, eq) ↦
            let info' : KfWindow = record info { class_name = resolved; class_name_ok = true } in
            ground (arith, find-insert_self w info' cache.windows)
      ]
    ]

-- After a fetchClientPid that returned, either another one gives the same pid and leaves the cache
-- as it is, whatever the server would answer by then, or the pid was 0 and the cache is as it was
-- before the first.
pub fetch_client_pid_again :
    (server later : XServer) (fuel fuel' : ℕ) (cache : KfWindowCache) (pid : ℤ)
    (after : KfWindowCache)
    → fetch_client_pid server fuel cache ≡ some (pid, after)
    → (fetch_client_pid later fuel' after ≡ some (pid, after)) ⊎ (pid ≡ pos 0) × (after ≡ cache)
unfolding fetch_client_pid
fetch_client_pid_again server later fuel fuel' cache pid after e = go cache.current refl
  where
    go :
        (c : Current)
        → cache.current ≡ c
        → (fetch_client_pid later fuel' after ≡ some (pid, after)) ⊎ (pid ≡ pos 0) × (after ≡ cache)
    go unset u = ground arith
    go at_end u = ground arith
    go (at w) u = elim (Option-cases (find w cache.windows)) [
      | inl gone ↦ ground arith
      | inr (info, found) ↦ elim (Option-cases (resolve_client_pid server fuel w)) [
        | inl open_end ↦ ground arith
        | inr (resolved, eq) ↦
            let info' : KfWindow = record info { client_pid = resolved; client_pid_ok = true } in
            ground (arith, find-insert_self w info' cache.windows, eq_ℤ_iff resolved (pos 0))
      ]
    ]

-- What a fetch comes to: a result, with the same window current.
abbrev pub Fetches : {A : Type 0} → KfWindowCache → Option (A × KfWindowCache) → Type 0
Fetches {A} cache r =
    (a : A) × (after : KfWindowCache) × (r ≡ some (a, after))
    × (after.current ≡ cache.current)
    × IsCurrent after

module _ (server : XServer) (fuel : ℕ) where
  name_at :
      (c : Current) (ws : List (ℕ × KfWindow))
      → Points c ws
      → ((w : ℕ) → (name : Text) × (resolve_class_name server fuel w ≡ some name))
      → let cache : KfWindowCache = record { windows = ws; current = c } in
        Fetches cache (fetch_class_name server fuel cache)
  unfolding fetch_class_name
  name_at unset ws h names = absurd h
  name_at at_end ws h names = ([], record { windows = ws; current = at_end }, refl, refl, tt)
  name_at (at w) ws (info, found) names =
      let (name, eq) = names w in
      let info' : KfWindow = record info { class_name = name; class_name_ok = true } in
      elim (Bool-cases info.class_name_ok) [
        | inl known ↦ (
          info.class_name,
          record { windows = ws; current = at w },
          ground arith,
          refl,
          (info, found),
        )
        | inr new ↦ (
          name,
          record { windows = insert w info' ws; current = at w },
          ground arith,
          refl,
          (info', find-insert_self w info' ws),
        )
      ]

  pid_at :
      (c : Current) (ws : List (ℕ × KfWindow))
      → Points c ws
      → ((w : ℕ) → (pid : ℤ) × (resolve_client_pid server fuel w ≡ some pid))
      → let cache : KfWindowCache = record { windows = ws; current = c } in
        Fetches cache (fetch_client_pid server fuel cache)
  unfolding fetch_client_pid
  pid_at unset ws h pids = absurd h
  pid_at at_end ws h pids = (pos 0, record { windows = ws; current = at_end }, refl, refl, tt)
  pid_at (at w) ws (info, found) pids =
      let (pid, eq) = pids w in
      let info' : KfWindow = record info { client_pid = pid; client_pid_ok = true } in
      let same : KfWindowCache = record { windows = ws; current = at w } in
      elim (Bool-cases info.client_pid_ok) [
        | inl known ↦ (info.client_pid, same, ground arith, refl, (info, found))
        | inr new ↦ elim (Bool-cases (eq_ℤ pid (pos 0))) [
          | inl zero_pid ↦ (pid, same, ground arith, refl, (info, found))
          | inr kept ↦ (
            pid,
            record { windows = insert w info' ws; current = at w },
            ground arith,
            refl,
            (info', find-insert_self w info' ws),
          )
        ]
      ]

  -- With an iterator that points at an entry or at the end, and a server on which both walks return
  -- for every window, both fetches return, with the same window current and an iterator that still
  -- points at an entry or at the end.
  pub fetch_returns :
      (cache : KfWindowCache)
      → IsCurrent cache
      → ((w : ℕ)
          → ((name : Text) × (resolve_class_name server fuel w ≡ some name))
            × ((pid : ℤ) × (resolve_client_pid server fuel w ≡ some pid)))
      → Fetches cache (fetch_class_name server fuel cache)
        × Fetches cache (fetch_client_pid server fuel cache)
  fetch_returns cache h ends = (
    name_at cache.current cache.windows h (λ w. (ends w).0),
    pid_at cache.current cache.windows h (λ w. (ends w).1),
  )

-- findAndUseWindow followed by invalidateEntry returns, from any state: the window's entry is gone,
-- every other entry stays, and nothing is current.
pub invalidate_entry-find_and_use_window :
    (w v : ℕ) (cache : KfWindowCache)
    → (after : KfWindowCache) × (invalidate_entry (find_and_use_window w cache) ≡ some after)
      × (after.current ≡ at_end)
      × (info_of v after ≡ (if w == v then none else info_of v cache))
unfolding invalidate_entry find_and_use_window
invalidate_entry-find_and_use_window w v cache = elim (Option-cases (find w cache.windows)) [
  | inl e ↦ (
    record { windows = erase w (insert w new_window cache.windows); current = at_end },
    ground arith,
    refl,
    ground (
      arith,
      find-erase w v (insert w new_window cache.windows),
      find-insert w v new_window cache.windows,
    ),
  )
  | inr (info, e) ↦ (
    record { windows = erase w cache.windows; current = at_end },
    ground arith,
    refl,
    find-erase w v cache.windows,
  )
]
