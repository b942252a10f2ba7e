-- ===== src/Tests/Windows.antt =====
-- The window cache, over a server of two nested windows.
use keyfrog.Base.{
  ℕ, ℤ, pos, ◌≡◌, refl, inl, inr, true, false, [], ◌∷◌, Option, none, some, ◌==◌, if◌then◌else◌,
  arith, Bool-cases,
}
use keyfrog.Base.Text.{Text, text}
use keyfrog.Base.Map.{find, insert}
use keyfrog.Window.Server.{Hint, XServer}
use keyfrog.Window.{
  KfWindow, KfWindowCache, new_window, at, at_end, hint_name, find_and_use_window, fetch_class_name,
  fetch_client_pid, invalidate_entry, resolve_class_name, resolve_client_pid,
}
use keyfrog.Window.Resolve.{
  Finds, Deepens, pid_or_zero, resolve_class_name-Finds, resolve_client_pid-Finds, resolve_returns,
}
use keyfrog.Window.Cache.{
  IsCurrent, info_of, Fetches, find_and_use_window_lem, fetch_returns,
  invalidate_entry-find_and_use_window,
}

-- The answers for window 12, with a class and a pid, and for 13, a child of it with neither.
abbrev hint_of : ℕ → Option Hint
hint_of w =
    if w == 12 then some (record { res_name = none; res_class = some (text "Gvim") }) else none

abbrev parent_of : ℕ → Option (ℕ × ℕ)
parent_of w = if w == 13 then some (1, 12) else none

abbrev server : XServer
server = record {
  class_hint = hint_of;
  query_tree = parent_of;
  has_pid_atom = true;
  net_wm_pid = λ w. if w == 12 then some (pos 100) else none;
}

abbrev depth : ℕ → ℕ
depth w = if w == 13 then 1 else 0

deepens : Deepens server depth
deepens w root parent e h k = elim (Bool-cases (w == 13)) [
  | inl child ↦ ground arith
  | inr other ↦ ground arith
]

resolves_name : resolve_class_name server 2 13 ≡ some (text "Gvim")
unfolding resolve_class_name
resolves_name = refl

resolves_pid : resolve_client_pid server 2 13 ≡ some (pos 100)
unfolding resolve_client_pid
resolves_pid = refl

resolve_class_name-Finds_example : Finds server (λ v h. hint_name h) [] 13 (text "Gvim")
resolve_class_name-Finds_example = resolve_class_name-Finds server 2 13 (text "Gvim") resolves_name

resolve_client_pid-Finds_example : Finds server (λ v h. pid_or_zero server v) (pos 0) 13 (pos 100)
resolve_client_pid-Finds_example = resolve_client_pid-Finds server 2 13 (pos 100) refl resolves_pid

resolve_returns_example :
    ((name : Text) × (resolve_class_name server 2 13 ≡ some name))
    × ((pid : ℤ) × (resolve_client_pid server 2 13 ≡ some pid))
resolve_returns_example = resolve_returns server depth deepens 2 13 (omega arith)

-- Window 13 current, before and after its class name and its pid are fetched.
abbrev entry : KfWindow → KfWindowCache
entry info = record { windows = (13, info) ∷ []; current = at 13 }

abbrev with_name : KfWindow
with_name = record new_window { class_name = text "Gvim"; class_name_ok = true }

abbrev with_pid : KfWindow
with_pid = record new_window { client_pid = pos 100; client_pid_ok = true }

fetches_name : fetch_class_name server 2 (entry new_window) ≡ some (text "Gvim", entry with_name)
unfolding fetch_class_name find insert
fetches_name = refl

fetches_pid : fetch_client_pid server 2 (entry new_window) ≡ some (pos 100, entry with_pid)
unfolding fetch_client_pid find insert
fetches_pid = refl

-- A server that has forgotten every window.
abbrev empty_server : XServer
empty_server = record {
  class_hint = λ w. none;
  query_tree = λ w. none;
  has_pid_atom = false;
  net_wm_pid = λ w. none;
}

find_and_use_window_lem_example :
    let after = find_and_use_window 14 (entry with_name) in
    (after.current ≡ at 14)
    × IsCurrent after
    × (info_of 13 after ≡ (
        if 14 == 13
        then elim (info_of 14 (entry with_name)) [ none ↦ some new_window | some info ↦ some info ]
        else info_of 13 (entry with_name)))
find_and_use_window_lem_example = find_and_use_window_lem 14 13 (entry with_name)

-- Every walk on this server ends within two windows.
walks_end :
    (w : ℕ)
    → ((name : Text) × (resolve_class_name server 2 w ≡ some name))
      × ((pid : ℤ) × (resolve_client_pid server 2 w ≡ some pid))
walks_end w = resolve_returns server depth deepens 2 w (ground arith)

fetch_returns_example :
    Fetches (entry new_window) (fetch_class_name server 2 (entry new_window))
    × Fetches (entry new_window) (fetch_client_pid server 2 (entry new_window))
unfolding find
fetch_returns_example = fetch_returns server 2 (entry new_window) (new_window, refl) walks_end

invalidate_entry-find_and_use_window_example :
    (after : KfWindowCache) × (invalidate_entry (find_and_use_window 13 (entry with_name))
      ≡ some after)
    × (after.current ≡ at_end)
    × (info_of 13 after ≡ (if 13 == 13 then none else info_of 13 (entry with_name)))
invalidate_entry-find_and_use_window_example =
    invalidate_entry-find_and_use_window 13 13 (entry with_name)
