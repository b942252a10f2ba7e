-- ===== src/Window/Resolve.antt =====
-- `resolveClassName` and `resolveClientPid` against the walk up the window tree.
use keyfrog.Base.{
  ℕ, zero, suc, ℤ, pos, ◌<◌, ◌≡◌, ◌≢◌, ◌⊎◌, inl, inr, true, ◌||◌, [], none, some, ◌==◌, arith,
  Option-cases, Bool-cases,
}
use keyfrog.Base.Text.{Text}
use keyfrog.Window.Server.{Hint, XServer}
use keyfrog.Window.{hint_name, resolve_class_name, resolve_client_pid_loop, resolve_client_pid}

module _ (server : XServer) where
  open server use {class_hint, query_tree, has_pid_atom, net_wm_pid}

  -- From a window through parents, none of them the root or 0, while there is no class hint.
  pub data Climbs : ℕ → ℕ → Type 0 where
    stay : {w : ℕ} → Climbs w w
    up :
        {w v : ℕ} (root parent : ℕ)
        → class_hint w ≡ none
        → query_tree w ≡ some (root, parent)
        → parent ≢ root
        → parent ≢ 0
        → Climbs parent v
        → Climbs w v

  -- A window where the climb ends with nothing found.
  abbrev pub IsTop : ℕ → Type 0
  IsTop v =
      (class_hint v ≡ none)
      × ((query_tree v ≡ none)
          ⊎ ((root : ℕ) × (parent : ℕ) × (query_tree v ≡ some (root, parent))
              × ((parent ≡ root) ⊎ (parent ≡ 0))))

  abbrev pub Finds {ℓ} : {A : Type ℓ} → (at_hint : ℕ → Hint → A) → (at_top : A) → ℕ → A → Type ℓ
  Finds at_hint at_top w a =
      (v : ℕ) × Climbs w v
      × (((h : Hint) × (class_hint v ≡ some h) × (a ≡ at_hint v h)) ⊎ IsTop v × (a ≡ at_top))

  -- A resolveClassName that returns gives the name of the first window with a class hint on the way
  -- up the window tree, or the empty name if the way ends at a window below the root, or without a
  -- parent, that has none.
  pub resolve_class_name-Finds :
      (fuel w : ℕ) (name : Text)
      → resolve_class_name server fuel w ≡ some name
      → Finds (λ v h. hint_name h) [] w name
  unfolding resolve_class_name
  resolve_class_name-Finds zero w name e = cc
  resolve_class_name-Finds (suc fuel) w name e = elim (Option-cases (class_hint w)) [
    | inr (h, hint) ↦ (w, stay, inl (h, hint, ground arith))
    | inl bare ↦ elim (Option-cases (query_tree w)) [
      | inl alone ↦ (w, stay, inr ((bare, inl alone), ground arith))
      | inr ((root, parent), query) ↦ elim (Bool-cases (parent == root || parent == 0)) [
        | inl top ↦ (w, stay, inr ((bare, inr (root, parent, query, ground arith)), ground arith))
        | inr more ↦
            let (v, climbs, found) = resolve_class_name-Finds fuel parent name (ground arith) in
            (v, up root parent bare query (ground arith) (ground arith) climbs, found)
      ]
    ]
  ]

  abbrev pub pid_or_zero : ℕ → ℤ
  pid_or_zero v = elim (net_wm_pid v) [ none ↦ pos 0 | some pid ↦ pid ]

  resolve_client_pid_loop-Finds :
      (fuel w : ℕ) (pid : ℤ)
      → resolve_client_pid_loop server fuel w ≡ some pid
      → Finds (λ v h. pid_or_zero v) (pos 0) w pid
  unfolding resolve_client_pid_loop
  resolve_client_pid_loop-Finds zero w pid e = cc
  resolve_client_pid_loop-Finds (suc fuel) w pid e = elim (Option-cases (class_hint w)) [
    | inr (h, hint) ↦ (w, stay, inl (h, hint, ground arith))
    | inl bare ↦ elim (Option-cases (query_tree w)) [
      | inl alone ↦ (w, stay, inr ((bare, inl alone), ground arith))
      | inr ((root, parent), query) ↦ elim (Bool-cases (parent == root || parent == 0)) [
        | inl top ↦ (w, stay, inr ((bare, inr (root, parent, query, ground arith)), ground arith))
        | inr more ↦
            let (v, climbs, found) = resolve_client_pid_loop-Finds fuel parent pid (ground arith) in
            (v, up root parent bare query (ground arith) (ground arith) climbs, found)
      ]
    ]
  ]

  -- Where the server has the atom, a resolveClientPid that returns gives the pid property of the
  -- first window with a class hint on the way up, and 0 if that window has no such property or no
  -- window on the way has a hint.
  pub resolve_client_pid-Finds :
      (fuel w : ℕ) (pid : ℤ)
      → has_pid_atom ≡ true
      → resolve_client_pid server fuel w ≡ some pid
      → Finds (λ v h. pid_or_zero v) (pos 0) w pid
  unfolding resolve_client_pid
  resolve_client_pid-Finds fuel w pid atom e =
      resolve_client_pid_loop-Finds fuel w pid (rw atom at e)

  -- The depth of a window falls from it to its parent, until the root.
  abbrev pub Deepens : (ℕ → ℕ) → Type 0
  Deepens depth =
      (w root parent : ℕ)
      → query_tree w ≡ some (root, parent)
      → parent ≢ root
      → parent ≢ 0
      → depth parent < depth w

  name_returns :
      (depth : ℕ → ℕ)
      → Deepens depth
      → (fuel w : ℕ) → depth w < fuel
      → (a : Text) × (resolve_class_name server fuel w ≡ some a)
  unfolding resolve_class_name
  name_returns depth deepens zero w h = absurd (omega arith)
  name_returns depth deepens (suc fuel) w h = elim (Option-cases (class_hint w)) [
    | inr (x, hint) ↦ (hint_name x, ground arith)
    | inl bare ↦ elim (Option-cases (query_tree w)) [
      | inl alone ↦ ([], ground arith)
      | inr ((root, parent), query) ↦ elim (Bool-cases (parent == root || parent == 0)) [
        | inl top ↦ ([], ground arith)
        | inr more ↦
            let lower = deepens w root parent query (ground arith) (ground arith) in
            let (a, e) = name_returns depth deepens fuel parent (omega arith) in (a, ground arith)
      ]
    ]
  ]

  pid_returns :
      (depth : ℕ → ℕ)
      → Deepens depth
      → (fuel w : ℕ) → depth w < fuel
      → (a : ℤ) × (resolve_client_pid_loop server fuel w ≡ some a)
  unfolding resolve_client_pid_loop
  pid_returns depth deepens zero w h = absurd (omega arith)
  pid_returns depth deepens (suc fuel) w h = elim (Option-cases (class_hint w)) [
    | inr (x, hint) ↦ (pid_or_zero w, ground arith)
    | inl bare ↦ elim (Option-cases (query_tree w)) [
      | inl alone ↦ (pos 0, ground arith)
      | inr ((root, parent), query) ↦ elim (Bool-cases (parent == root || parent == 0)) [
        | inl top ↦ (pos 0, ground arith)
        | inr more ↦
            let lower = deepens w root parent query (ground arith) (ground arith) in
            let (a, e) = pid_returns depth deepens fuel parent (omega arith) in (a, ground arith)
      ]
    ]
  ]

  -- Where windows have depths that fall from a window to a parent that is neither the root nor 0,
  -- both walks return for every window whose depth is below the fuel.
  pub resolve_returns :
      (depth : ℕ → ℕ)
      → Deepens depth
      → (fuel w : ℕ) → depth w < fuel
      → ((name : Text) × (resolve_class_name server fuel w ≡ some name))
        × ((pid : ℤ) × (resolve_client_pid server fuel w ≡ some pid))
  unfolding resolve_client_pid
  resolve_returns depth deepens fuel w h = (
    name_returns depth deepens fuel w h,
    elim (Bool-cases has_pid_atom) [
      | inl atom ↦ rw atom (pid_returns depth deepens fuel w h)
      | inr missing ↦ (pos 0, rw missing)
    ],
  )
