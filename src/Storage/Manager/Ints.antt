-- ===== src/Storage/Manager/Ints.antt =====
-- The cache of src/StorageManager.cpp with counts that are ints of 32 bits.
use keyfrog.Base.{
  List-cases, subst, ◌+◌, ℕ, suc, ℤ, pos, ◌+ℤ◌, ◌≡◌, refl, sym, inl, inr, List, [], ◌∷◌, Option,
  none, some, if◌then◌else◌, All, arith, Bool-cases, Option-cases, ◌<◌, ◌≤◌,
}
use keyfrog.Base.Text.{Text, text_eq}
use keyfrog.Base.Key.{text_key}
use keyfrog.Storage.{Storage}
use keyfrog.Storage.Cluster.{is_int}
use keyfrog.Storage.Manager.{Boost, Cache, cache_key, bump, Manager, press, commit_step, ◌>>=◌}
use keyfrog.Storage.Manager.Conserve.{Action, pressed, commits, run}

-- `+` on ints; `none` is an overflow, which C++ leaves undefined.
abbrev pub add_int : ℤ → ℤ → Option ℤ
add_int a b = if is_int (a +ℤ b) then some (a +ℤ b) else none

-- `m_cache[key] += count`
unfoldable pub bump_int : Text → ℤ → Cache → Option Cache
bump_int k n [] = do total ← add_int (pos 0) n; some ((k, total) ∷ [])
bump_int k n ((j, w) ∷ m) =
    let rest = bump_int k n m >>= λ m'. some ((j, w) ∷ m') in
    let here = add_int w n >>= λ total. some ((j, total) ∷ m) in
    let new = add_int (pos 0) n >>= λ total. some ((k, total) ∷ (j, w) ∷ m) in
    if text_eq j k then here else if text_key.lt k j then new else rest

-- Each count is from 0 to a bound.
abbrev pub Within : ℕ → Cache → Type 0
Within k m = All (λ (e : Text × ℤ). (v : ℕ) × (e.1 ≡ pos v) × (v ≤ k)) m

Within-suc : (k : ℕ) (m : Cache) → Within k m → Within (suc k) m
Within-suc k [] h = tt
Within-suc k (e ∷ m) ((v, is, fits), h) = ((v, is, omega arith), Within-suc k m h)

add_one :
    (w : ℤ) (v : ℕ)
    → w ≡ pos v
    → v < 2147483647
    → (add_int w (pos 1) ≡ some (w +ℤ pos 1)) × (w +ℤ pos 1 ≡ pos (suc v))
unfolding ◌+ℤ◌
add_one w v is room = ground (arith, is)

-- One more press.
bump-Within :
    (key : Text) (k : ℕ) (m : Cache)
    → k < 2147483647
    → Within k m
    → (bump_int key (pos 1) m ≡ some (bump key (pos 1) m)) × Within (suc k) (bump key (pos 1) m)
unfolding bump bump_int ◌+ℤ◌
bump-Within key k [] room h = (refl, ((1, refl, omega arith), tt))
bump-Within key k ((j, w) ∷ m) room ((v, is, fits), h) =
    let (same, within) = bump-Within key k m room h in
    let (added, total) = add_one w v is (omega arith) in
    elim (Bool-cases (text_eq j key)) [
      | inl hit ↦ rw (hit, added) (refl, ((suc v, total, omega arith), Within-suc k m h))
      | inr miss ↦ elim (Bool-cases (text_key.lt key j)) [
        | inl before ↦
            rw (miss, before)
              (refl, ((1, refl, omega arith), ((v, is, omega arith), Within-suc k m h)))
        | inr after ↦ rw (miss, after, same) (refl, ((v, is, omega arith), within))
      ]
    ]

module _ (boost : Boost) (storage : Storage) where
  -- `StorageManager::addKeyPress(app_group, timestamp, count)` on ints
  unfoldable pub press_int :
      (app_group timestamp count : ℤ) → Manager boost storage → Option (Manager boost storage)
  unfolding bump_int
  press_int app_group timestamp count m = do
    cache ← bump_int (cache_key app_group (storage.get_cluster_start timestamp)) count m.cache
    some (record m { cache = cache })

  unfoldable pub run_int : List Action → Manager boost storage → Option (Manager boost storage)
  unfolding press_int
  run_int [] m = some m
  run_int (pressed g t n ∷ rest) m = press_int g t n m >>= run_int rest
  run_int (commits ∷ rest) m = commit_step boost storage m >>= run_int rest

  -- Key presses are recorded one at a time.
  abbrev pub IsSingle : Action → Type 0
  IsSingle (pressed g t n) = n ≡ pos 1
  IsSingle commits = Unit

  unfoldable pub count_presses : List Action → ℕ
  count_presses [] = 0
  count_presses (pressed g t n ∷ rest) = suc (count_presses rest)
  count_presses (commits ∷ rest) = count_presses rest

  press_int-eq-press :
      (g t : ℤ) (k : ℕ) (m : Manager boost storage)
      → k < 2147483647
      → Within k m.cache
      → (press_int g t (pos 1) m ≡ some (press boost storage g t (pos 1) m))
        × Within (suc k) (press boost storage g t (pos 1) m).cache
  unfolding press_int press
  press_int-eq-press g t k m room h =
      let (same, within) =
        bump-Within (cache_key g (storage.get_cluster_start t)) k m.cache room h in
      (rw (press_int, same) refl, within)

  -- A snapshot empties the cache; an entry that is sent leaves it.
  commit_step-Within :
      (k : ℕ) (m m' : Manager boost storage)
      → commit_step boost storage m ≡ some m'
      → Within k m.cache
      → Within k m'.cache
  unfolding commit_step
  commit_step-Within k m m' e h = elim (List-cases m.localcache) [
    | inl done ↦ let cleared : m'.cache ≡ [] = ground arith in subst (Within k) (sym cleared) tt
    | inr (entry, rest, more) ↦
        let kept : m'.cache ≡ m.cache = ground arith in subst (Within k) (sym kept) h
  ]

  run_int-eq-run_lem :
      (actions : List Action) (k : ℕ) (m : Manager boost storage)
      → All IsSingle actions
      → k + count_presses actions < 2147483648
      → Within k m.cache
      → run_int actions m ≡ run boost storage actions m
  unfolding run_int run count_presses
  run_int-eq-run_lem [] k m single room h = refl
  run_int-eq-run_lem (pressed g t n ∷ rest) k m (one, single) room h =
      let (same, within) = press_int-eq-press g t k m (omega arith) h in
      let later =
        run_int-eq-run_lem rest (suc k) (press boost storage g t (pos 1) m) single (omega arith)
          within in
      rw (one, run_int, same) later
  run_int-eq-run_lem (commits ∷ rest) k m (_, single) room h =
      elim (Option-cases (commit_step boost storage m)) [
        | inl stopped ↦ rw (run_int, run, stopped) refl
        | inr (m', stepped) ↦
            rw (run_int, run, stepped)
              (run_int-eq-run_lem rest k m' single room (commit_step-Within k m m' stepped h))
      ]

  -- From an empty cache, and for every order of committer steps and of fewer than 2^31 presses with
  -- a count of 1, the run whose cached counts are ints of 32 bits, and which stops at an overflow,
  -- is the run over integers.
  pub run_int-eq-run :
      (actions : List Action) (m : Manager boost storage)
      → All IsSingle actions
      → count_presses actions < 2147483648
      → m.cache ≡ []
      → run_int actions m ≡ run boost storage actions m
  run_int-eq-run actions m single room empty =
      run_int-eq-run_lem actions 0 m single (omega arith) (subst (Within 0) (sym empty) tt)
