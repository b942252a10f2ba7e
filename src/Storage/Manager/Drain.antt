-- ===== src/Storage/Manager/Drain.antt =====
-- Left alone, the committer moves all that is cached to the backend.
use keyfrog.Base.{
  subst, ℕ, zero, suc, ℤ, ◌≡◌, refl, sym, ap, ◌∙◌, List, [], ◌∷◌, ◌++◌, some, arith, +ℤ_zero,
  length, replicate,
}
use mathlib.Core.List.{append-nil}
use keyfrog.Storage.{Storage, StorageLaws}
use keyfrog.Storage.Manager.{Boost, BoostLaws, Cache, Manager, commit_step}
use keyfrog.Storage.Manager.Counts.{sum_at}
use keyfrog.Storage.Manager.Conserve.{
  Action, commits, Reliable, run, IsKeyed, accounted, commit_step-accounted,
}

module _ (boost : Boost) (storage : Storage) where
  commit_step-entry :
      (m m' : Manager boost storage) (k : ℕ)
      → length m.localcache ≡ suc k
      → commit_step boost storage m ≡ some m'
      → (length m'.localcache ≡ k) × (m'.cache ≡ m.cache)
  unfolding commit_step
  commit_step-entry m m' k h e = ground arith

  commit_step-snapshot :
      (m m' : Manager boost storage)
      → m.localcache ≡ []
      → commit_step boost storage m ≡ some m'
      → (m'.localcache ≡ m.cache) × (m'.cache ≡ [])
  unfolding commit_step
  commit_step-snapshot m m' h e = ground arith

  nil_of_length : {m : Cache} → length m ≡ 0 → m ≡ []
  nil_of_length {m} h = ground arith

module _ (boost : Boost) (laws : BoostLaws boost) (storage : Storage) (keeps : StorageLaws storage)
    (reliable : Reliable storage) where
  -- Where the committer is after some steps: the counts are the same in sum.
  abbrev Same : Manager boost storage → Manager boost storage → Type 0
  Same m m' =
      (c g : ℤ)
      → accounted boost laws storage keeps m' c g ≡ accounted boost laws storage keeps m c g

  accounted_empty :
      (m : Manager boost storage) (c g : ℤ)
      → m.localcache ≡ []
      → m.cache ≡ []
      → keeps.recorded m.backend c g ≡ accounted boost laws storage keeps m c g
  unfolding accounted sum_at
  accounted_empty m c g e e' = rw (e, e') (sym (+ℤ_zero _ ∙ +ℤ_zero _))

  flush :
      (k : ℕ) (m : Manager boost storage) (more : List Action)
      → length m.localcache ≡ k
      → IsKeyed boost storage m
      → (m' : Manager boost storage) × (run boost storage (replicate k commits ++ more) m
          ≡ run boost storage more m')
        × (m'.localcache ≡ [])
        × (m'.cache ≡ m.cache)
        × IsKeyed boost storage m'
        × Same m m'
  unfolding run
  flush zero m more h keyed = (m, refl, nil_of_length boost storage h, refl, keyed, λ c g. refl)
  flush (suc k) m more h keyed =
      let (mid, stepped, keyed_mid, same) =
        commit_step-accounted boost laws storage keeps reliable m keyed in
      let (shorter, cache) = commit_step-entry boost storage m mid k h stepped in
      let (m', ran, empty, cache', keyed', same') = flush k mid more shorter keyed_mid in
      (m', rw (stepped, run) ran, empty, cache' ∙ cache, keyed', λ c g. same' c g ∙ same c g)

  -- From a state whose keys are well formed, over a reliable backend that keeps the storage laws,
  -- and with no more presses, one step for each entry of the snapshot, one for the next snapshot
  -- and one for each of its entries end with both maps empty, and with the backend recording for
  -- each cluster and group all that was accounted for.
  pub run_drains :
      (m : Manager boost storage)
      → IsKeyed boost storage m
      → (m' : Manager boost storage) × (run boost storage
            (replicate (length m.localcache) commits
              ++ (commits ∷ replicate (length m.cache) commits))
            m
          ≡ some m')
        × (m'.localcache ≡ [])
        × (m'.cache ≡ [])
        × ((c g : ℤ) → keeps.recorded m'.backend c g ≡ accounted boost laws storage keeps m c g)
  unfolding run
  run_drains m keyed =
      let k = length m.localcache in
      let n = length m.cache in
      let (a, ran, empty, cache, keyed_a, same) =
        flush k m (commits ∷ (replicate n commits)) refl keyed in
      let (b, stepped, keyed_b, same_b) =
        commit_step-accounted boost laws storage keeps reliable a keyed_a in
      let (local, cleared) = commit_step-snapshot boost storage a b empty stepped in
      let (d, ran_d, empty_d, cleared_d, keyed_d, same_d) =
        flush n b [] (ap length (local ∙ cache)) keyed_b in
      (
        d,
        ran
            ∙ rw (stepped, run)
                (subst (λ (r : List Action). run boost storage r b ≡ some d)
                  (append-nil (replicate n commits)) ran_d),
        empty_d,
        cleared_d ∙ cleared,
        λ c g.
            accounted_empty d c g empty_d (cleared_d ∙ cleared)
            ∙ same_d c g
            ∙ same_b c g
            ∙ same c g,
      )
