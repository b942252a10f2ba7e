-- ===== src/Storage/Manager/Totals.antt =====
-- What the backend is to record, in the end: the presses of a schedule without their order.
use mathlib.Core.Quot
use mathlib.Core.Quot.{Quot, Quot-set}
use keyfrog.Base.{
  ℤ, ◌+ℤ◌, ◌≡◌, refl, sym, ap, ◌∙◌, List, ◌∷◌, ◌++◌, some, arith, int_laws, length, replicate,
}
use keyfrog.Storage.{Storage, StorageLaws}
use keyfrog.Storage.Manager.{Boost, BoostLaws, Manager}
use keyfrog.Storage.Manager.Conserve.{
  Action, pressed, commits, Reliable, run, presses, IsKeyed, accounted, run-accounted,
}
use keyfrog.Storage.Manager.Drain.{run_drains}

pub ℤ_set : IsSet ℤ
ℤ_set = hlevel

module _ (boost : Boost) (storage : Storage) where
  -- Two schedules press equally often in each cluster and group.
  abbrev pub SameCounts : List Action → List Action → Type 0
  SameCounts a a' = (c g : ℤ) → presses boost storage a c g ≡ presses boost storage a' c g

  abbrev pub Totals : Type 0
  Totals = Quot SameCounts

  pub total : Totals → (cluster group : ℤ) → ℤ
  total t c g = Quot.lift ℤ_set (λ a. presses boost storage a c g) (λ a a' h. h c g) t

  pub SameCounts-cons :
      (x : Action) (a a' : List Action) → SameCounts a a' → SameCounts (x ∷ a) (x ∷ a')
  unfolding presses
  SameCounts-cons (pressed g' t n) a a' h c g = ground (arith, h c g)
  SameCounts-cons commits a a' h c g = h c g

  -- One more action.
  unfoldable pub add : Action → Totals → Totals
  add x =
      Quot.lift Quot-set (λ a. Quot.mk (x ∷ a)) (λ a a' h. Quot.sound (SameCounts-cons x a a' h))

  swap_sum : (n k a : ℤ) → n +ℤ (k +ℤ a) ≡ k +ℤ (n +ℤ a)
  swap_sum n k a = omega int_laws

  SameCounts-swap : (x y : Action) (a : List Action) → SameCounts (x ∷ y ∷ a) (y ∷ x ∷ a)
  unfolding presses
  SameCounts-swap commits commits a c g = refl
  SameCounts-swap commits (pressed g' t n) a c g = refl
  SameCounts-swap (pressed g' t n) commits a c g = refl
  SameCounts-swap (pressed g' t n) (pressed g'' u k) a c g =
      ground (arith, swap_sum n k (presses boost storage a c g))

  -- The order of the actions does not matter, and neither do the committer's steps.
  pub add_comm : (x y : Action) (t : Totals) → add x (add y t) ≡ add y (add x t)
  unfolding add
  add_comm x y = Quot.ind (λ t. Quot-set _ _) (λ a. Quot.sound (SameCounts-swap x y a))

  pub add-commits : (t : Totals) → add commits t ≡ t
  unfolding add presses
  add-commits = Quot.ind (λ t. Quot-set _ _) (λ a. Quot.sound (λ c g. refl))

  -- The committer's steps until nothing is cached.
  abbrev pub drain : Manager boost storage → List Action
  drain m =
      replicate (length m.localcache) commits ++ (commits ∷ replicate (length m.cache) commits)

module _ (boost : Boost) (laws : BoostLaws boost) (storage : Storage) (keeps : StorageLaws storage)
    (reliable : Reliable storage) where
  -- A run that is then drained.
  run_all :
      (a : List Action) (m : Manager boost storage)
      → IsKeyed boost storage m
      → (m' d : Manager boost storage) × (run boost storage a m ≡ some m')
        × (run boost storage (drain boost storage m') m' ≡ some d)
        × ((c g : ℤ)
            → keeps.recorded d.backend c g
              ≡ accounted boost laws storage keeps m c g +ℤ presses boost storage a c g)
  run_all a m keyed =
      let (m', ran, keyed', sums) = run-accounted boost laws storage keeps reliable a m keyed in
      let (d, drained, _, _, totals) = run_drains boost laws storage keeps reliable m' keyed' in
      (m', d, ran, drained, λ c g. totals c g ∙ sums c g)

  -- From a state whose keys are well formed, and over a Boost that keeps its laws and a reliable
  -- backend that keeps the storage laws, two schedules of key presses and committer steps that are
  -- equal in the quotient by the presses of each cluster and group both run, and where the
  -- committer has then moved all that is cached, the backend records the same counts after both.
  pub run-Totals :
      (a a' : List Action) (m : Manager boost storage)
      → IsKeyed boost storage m
      → ◌≡◌ {A = Totals boost storage} (Quot.mk a) (Quot.mk a')
      → (m1 m2 d1 d2 : Manager boost storage) × (run boost storage a m ≡ some m1)
        × (run boost storage a' m ≡ some m2)
        × (run boost storage (drain boost storage m1) m1 ≡ some d1)
        × (run boost storage (drain boost storage m2) m2 ≡ some d2)
        × ((c g : ℤ) → keeps.recorded d1.backend c g ≡ keeps.recorded d2.backend c g)
  unfolding total
  run-Totals a a' m keyed same =
      let (m1, d1, ran1, drained1, sums1) = run_all a m keyed in
      let (m2, d2, ran2, drained2, sums2) = run_all a' m keyed in
      (
        m1,
        m2,
        d1,
        d2,
        ran1,
        ran2,
        drained1,
        drained2,
        λ c g.
            sums1 c g
            ∙ ap (λ n. accounted boost laws storage keeps m c g +ℤ n)
                (ap (λ (t : Totals boost storage). total boost storage t c g) same)
            ∙ sym (sums2 c g),
      )
