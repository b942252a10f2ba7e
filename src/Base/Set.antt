-- ===== src/Base/Set.antt =====
-- `std::set` as the list of its elements in order.
use mathlib.Core.Path.{◌≡◌, refl}
use mathlib.Core.Logic.{◌⊎◌, inl, inr}
use mathlib.Core.List.{List, [], ◌∷◌}
use mathlib.Core.Path.{subst, sym}
use keyfrog.Base.Tests.{if◌then◌else◌, Bool-cases}
use keyfrog.Base.Lists.{At, here, there}
use keyfrog.Base.Key.{Key}

pub At-cases {ℓ} : {A : Type ℓ} {a x : A} {xs : List A} → At a (x ∷ xs) → (a ≡ x) ⊎ At a xs
At-cases here = inl refl
At-cases (there m) = inr m

pub At-head {ℓ} : {A : Type ℓ} {a x : A} (xs : List A) → a ≡ x → At a (x ∷ xs)
At-head {a} xs e = subst (λ y. At a (y ∷ xs)) e here

module _ {ℓ} {K : Type ℓ} ⦃o : Key K⦄ where
  unfoldable pub set_insert : K → List K → List K
  set_insert k [] = k ∷ []
  set_insert k (j ∷ s) =
      let rest = j ∷ set_insert k s in
      if o.eq j k then j ∷ s else if o.lt k j then k ∷ j ∷ s else rest

  -- A set grows by the element, and by no other.
  pub At-set_insert : (x k : K) (s : List K) → At x (set_insert k s) → (x ≡ k) ⊎ At x s
  unfolding set_insert
  At-set_insert x k [] m = At-cases m
  At-set_insert x k (j ∷ s) m = elim (Bool-cases (o.eq j k)) [
    | inl hit ↦ inr (rw (hit, set_insert) at m)
    | inr miss ↦ elim (Bool-cases (o.lt k j)) [
      | inl before ↦ At-cases (rw (miss, before, set_insert) at m)
      | inr after ↦ elim (At-cases (rw (miss, after, set_insert) at m)) [
        | inl e ↦ inr (At-head s e)
        | inr later ↦ elim (At-set_insert x k s later) [ inl e ↦ inl e | inr old ↦ inr (there old) ]
      ]
    ]
  ]

  pub At-set_insert_self : (k : K) (s : List K) → At k (set_insert k s)
  unfolding set_insert
  At-set_insert_self k [] = here
  At-set_insert_self k (j ∷ s) = elim (Bool-cases (o.eq j k)) [
    | inl hit ↦ rw hit (At-head s (sym ((o.eq_iff j k).0 hit)))
    | inr miss ↦ elim (Bool-cases (o.lt k j)) [
      | inl before ↦ rw (miss, before) here
      | inr after ↦ rw (miss, after) (there (At-set_insert_self k s))
    ]
  ]

  pub At-set_insert_old : {x : K} (k : K) (s : List K) → At x s → At x (set_insert k s)
  unfolding set_insert
  At-set_insert_old k [] m = elim m [ ]
  At-set_insert_old k (j ∷ s) m = elim (Bool-cases (o.eq j k)) [
    | inl hit ↦ rw hit m
    | inr miss ↦ elim (Bool-cases (o.lt k j)) [
      | inl before ↦ rw (miss, before) (there m)
      | inr after ↦
          rw (miss, after)
            (elim (At-cases m) [
              | inl e ↦ At-head _ e
              | inr later ↦ there (At-set_insert_old k s later)
            ])
    ]
  ]
