-- ===== src/Storage/Manager/Conserve.antt =====
-- The daemon's thread and the committer's, interleaved: no key press is lost or counted twice.
use keyfrog.Base.{
  +ℤ_assoc, +ℤ_zero, subst, ℤ, ◌+ℤ◌, pos, ◌≡◌, refl, sym, ap, ◌∙◌, inl, inr, true, ◌&&◌, List, [],
  ◌∷◌, Option, none, some, eq_ℤ, if◌then◌else◌, All, arith, int_laws, Bool-cases, List-cases,
}
use keyfrog.Base.Text.{Text, text_eq}
use keyfrog.Base.Key.{text_key}
use keyfrog.Storage.{Storage, StorageLaws}
use keyfrog.Storage.Manager.{
  Boost, BoostLaws, Cache, cache_key, bump, Manager, press, send, commit_step,
}
use keyfrog.Storage.Manager.Counts.{sum_at, sum_at-bump, split-cache_key, text_eq-cache_key}

-- What the two threads do, in the order in which it happens: `addKeyPress` with its group, time and
-- count, or the committer's next step.
pub data Action : Type 0 where
  pressed : (app_group timestamp count : ℤ) → Action
  commits : Action

-- A backend whose `addKeyPress` succeeds.
abbrev pub Reliable : Storage → Type 0
Reliable storage =
    (first second n : ℤ) (s : storage.State) → (storage.add_key_press first second n s).0 ≡ true

module _ (boost : Boost) (storage : Storage) where
  unfoldable pub run : List Action → Manager boost storage → Option (Manager boost storage)
  run [] m = some m
  run (pressed g t n ∷ rest) m = run rest (press boost storage g t n m)
  run (commits ∷ rest) m = elim (commit_step boost storage m) [
    | none ↦ none
    | some m' ↦ run rest m'
  ]

  -- The presses of a schedule that fall into a cluster and a group.
  unfoldable pub presses : List Action → (cluster group : ℤ) → ℤ
  presses [] c g = pos 0
  presses (pressed g' t n ∷ rest) c g =
      if eq_ℤ (storage.get_cluster_start t) c && eq_ℤ g' g
      then n +ℤ presses rest c g
      else presses rest c g
  presses (commits ∷ rest) c g = presses rest c g

  -- The committer splits each key into the group and a time that starts its cluster.
  abbrev pub IsKey : Text × ℤ → Type 0
  IsKey e = (g : ℤ) × (c : ℤ) × (e.0 ≡ cache_key g c) × (storage.get_cluster_start c ≡ c)

  pub record IsKeyed (m : Manager boost storage) : Type 0 where
    pub cached : All IsKey m.cache
    pub copied : All IsKey m.localcache

  bump-IsKeyed :
      (g c n : ℤ) (m : Cache)
      → storage.get_cluster_start c ≡ c
      → All IsKey m
      → All IsKey (bump (cache_key g c) n m)
  unfolding bump
  bump-IsKeyed g c n [] start h = ((g, c, refl, start), tt)
  bump-IsKeyed g c n ((j, w) ∷ m) start h = elim (Bool-cases (text_eq j (cache_key g c))) [
    | inl hit ↦ rw hit h
    | inr miss ↦ rw miss (elim (Bool-cases (text_key.lt (cache_key g c) j)) [
      | inl before ↦ rw before ((g, c, refl, start), h)
      | inr after ↦ rw after (h.0, bump-IsKeyed g c n m start h.1)
    ])
  ]

module _ (boost : Boost) (laws : BoostLaws boost) (storage : Storage)
    (keeps : StorageLaws storage) where
  -- All presses known to the program: on record, on their way, and in the cache.
  unfoldable pub accounted : Manager boost storage → (cluster group : ℤ) → ℤ
  accounted m c g =
      keeps.recorded m.backend c g
      +ℤ sum_at (cache_key g c) m.localcache
      +ℤ sum_at (cache_key g c) m.cache

  send_lem :
      (g c n : ℤ) (s : storage.State)
      → send boost storage (cache_key g c) n s ≡ some (storage.add_key_press c g n s).1
  unfolding send
  send_lem g c n s = rw (split-cache_key boost laws g c, laws.cast_show g, laws.cast_show c)

  add_inner : (a b d n : ℤ) → a +ℤ b +ℤ (d +ℤ n) ≡ a +ℤ b +ℤ d +ℤ n
  add_inner a b d n = omega int_laws

  pub press-accounted :
      (g t n : ℤ) (m : Manager boost storage) (c' g' : ℤ)
      → accounted (press boost storage g t n m) c' g' ≡ (
          if eq_ℤ (storage.get_cluster_start t) c' && eq_ℤ g g'
          then accounted m c' g' +ℤ n
          else accounted m c' g')
  unfolding accounted press
  press-accounted g t n m c' g' =
      let c = storage.get_cluster_start t in
      ground (
        arith,
        sum_at-bump (cache_key g' c') (cache_key g c) n m.cache,
        text_eq-cache_key boost laws g c g' c',
        add_inner (keeps.recorded m.backend c' g') (sum_at (cache_key g' c') m.localcache)
            (sum_at (cache_key g' c') m.cache) n,
      )

  pub press-IsKeyed :
      (g t n : ℤ) (m : Manager boost storage)
      → IsKeyed boost storage m
      → IsKeyed boost storage (press boost storage g t n m)
  unfolding press
  press-IsKeyed g t n m h = record {
    cached =
        bump-IsKeyed boost storage g (storage.get_cluster_start t) n m.cache (keeps.idem t)
          h.cached;
    copied = h.copied;
  }

  snapshot_sum : (a b : ℤ) → a +ℤ b +ℤ pos 0 ≡ a +ℤ pos 0 +ℤ b
  snapshot_sum a b = omega int_laws

  send_sum : (a n b d : ℤ) → a +ℤ n +ℤ b +ℤ d ≡ a +ℤ (n +ℤ b) +ℤ d
  send_sum a n b d = omega int_laws

  -- What a step of the committer comes to.
  abbrev pub Commits : Manager boost storage → Option (Manager boost storage) → Type 0
  Commits m r =
      (m' : Manager boost storage) × (r ≡ some m')
      × IsKeyed boost storage m'
      × ((c g : ℤ) → accounted m' c g ≡ accounted m c g)

  -- An entry that goes to the backend moves from one part of the sum to another.
  entry-accounted :
      (g c n : ℤ) (rest : Cache) (m : Manager boost storage) (c' g' : ℤ)
      → m.localcache ≡ (cache_key g c, n) ∷ rest
      → storage.get_cluster_start c ≡ c
      → (storage.add_key_press c g n m.backend).0 ≡ true
      → accounted
          (record m { localcache = rest; backend = (storage.add_key_press c g n m.backend).1 })
          c'
          g'
        ≡ accounted m c' g'
  unfolding accounted sum_at
  entry-accounted g c n rest m c' g' eq start sent = ground (
    arith,
    eq,
    start,
    keeps.adds c g n m.backend c' g' sent,
    text_eq-cache_key boost laws g c g' c',
    send_sum (keeps.recorded m.backend c' g') n (sum_at (cache_key g' c') rest)
        (sum_at (cache_key g' c') m.cache),
  )

  module _ (reliable : Reliable storage) where
    send-accounted :
        (m : Manager boost storage) (e : Text × ℤ) (rest : Cache)
        → m.localcache ≡ e ∷ rest
        → IsKeyed boost storage m
        → IsKey boost storage e
        → All (IsKey boost storage) rest
        → Commits m (commit_step boost storage m)
    unfolding commit_step
    send-accounted m (k, n) rest eq h (g, c, named, start) more =
        let s = (storage.add_key_press c g n m.backend).1 in
        (
          record m { localcache = rest; backend = s },
          rw (eq, commit_step) (rw (named, send_lem g c n m.backend)),
          record { cached = h.cached; copied = more },
          λ c' g'.
              entry-accounted g c n rest m c' g' (rw (← named) eq) start (reliable c g n m.backend),
        )

    snapshot-accounted :
        (m : Manager boost storage)
        → m.localcache ≡ []
        → IsKeyed boost storage m
        → Commits m (commit_step boost storage m)
    unfolding commit_step accounted sum_at
    snapshot-accounted m eq h = (
      record m { localcache = m.cache; cache = [] },
      rw (eq, commit_step),
      record { cached = tt; copied = h.cached },
      λ c g.
          ground (
            arith,
            eq,
            snapshot_sum (keeps.recorded m.backend c g) (sum_at (cache_key g c) m.cache),
          ),
    )

    -- A step of the committer always succeeds, and moves presses without changing their sum.
    pub commit_step-accounted :
        (m : Manager boost storage)
        → IsKeyed boost storage m
        → Commits m (commit_step boost storage m)
    commit_step-accounted m h = elim (List-cases m.localcache) [
      | inl eq ↦ snapshot-accounted m eq h
      | inr (e, rest, eq) ↦
          let keyed = subst (All (IsKey boost storage)) eq h.copied in
          send-accounted m e rest eq h keyed.0 keyed.1
    ]

    -- For every order of key presses and committer steps, from a state whose keys are well formed
    -- and over a reliable backend that keeps the storage laws, the committer never stops, keys stay
    -- well formed, and for each cluster and group the backend, the snapshot and the cache hold
    -- together what they held before plus the presses of the schedule.
    pub run-accounted :
        (actions : List Action) (m : Manager boost storage)
        → IsKeyed boost storage m
        → (m' : Manager boost storage) × (run boost storage actions m ≡ some m')
          × IsKeyed boost storage m'
          × ((c g : ℤ) → accounted m' c g ≡ accounted m c g +ℤ presses boost storage actions c g)
    unfolding run presses
    run-accounted [] m h = (m, refl, h, λ c g. sym (+ℤ_zero _))
    run-accounted (pressed g t n ∷ rest) m h =
        let (m', ran, keyed, sum) =
          run-accounted rest (press boost storage g t n m) (press-IsKeyed g t n m h) in
        (
          m',
          ran,
          keyed,
          λ c' g'. ground (
            arith,
            sum c' g',
            press-accounted g t n m c' g',
            +ℤ_assoc (accounted m c' g') n (presses boost storage rest c' g'),
          ),
        )
    run-accounted (commits ∷ rest) m h =
        let (mid, stepped, keyed_mid, same) = commit_step-accounted m h in
        let (m', ran, keyed, sum) = run-accounted rest mid keyed_mid in
        (
          m',
          rw (stepped, run) ran,
          keyed,
          λ c g. sum c g ∙ ap (λ a. a +ℤ presses boost storage rest c g) (same c g),
        )
