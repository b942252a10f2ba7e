-- ===== src/Base/Map.antt =====
-- `std::map` as the list of its entries in key order. The laws of look-up need no order, so none is
-- carried along.
use mathlib.Core.Path.{◌≡◌, refl}
use mathlib.Core.Bool.{true}
use mathlib.Core.Option.{Option, none, some}
use mathlib.Core.List.{List, [], ◌∷◌}
use native.Mathlib.Omega.{arith}
use keyfrog.Base.Tests.{if◌then◌else◌}
use keyfrog.Base.Key.{Key}

pub eq_self {ℓ} : {K : Type ℓ} ⦃o : Key K⦄ (k : K) → o.eq k k ≡ true
eq_self ⦃o⦄ k = (o.eq_iff k k).1 refl

module _ {ℓ κ} {K : Type ℓ} {V : Type κ} ⦃o : Key K⦄ where
  -- `find`, and `count` as `is_some`.
  unfoldable pub find : K → List (K × V) → Option V
  find k [] = none
  find k ((j, v) ∷ m) = if o.eq j k then some v else find k m

  -- `m[k] = v`.
  unfoldable pub insert : K → V → List (K × V) → List (K × V)
  insert k v [] = (k, v) ∷ []
  insert k v ((j, w) ∷ m) =
      let rest = (j, w) ∷ insert k v m in
      if o.eq j k then (k, v) ∷ m else if o.lt k j then (k, v) ∷ (j, w) ∷ m else rest

  -- `erase` at the entry of a key.
  unfoldable pub erase : K → List (K × V) → List (K × V)
  erase k [] = []
  erase k ((j, w) ∷ m) = if o.eq j k then erase k m else (j, w) ∷ erase k m

  pub find-insert :
      (k j : K) (v : V) (m : List (K × V))
      → find j (insert k v m) ≡ (if o.eq k j then some v else find j m)
  unfolding find insert
  find-insert k j v [] = refl
  find-insert k j v ((i, w) ∷ m) =
      ground (arith, o.eq_iff k j, o.eq_iff i k, o.eq_iff i j, find-insert k j v m)

  pub find-erase :
      (k j : K) (m : List (K × V)) → find j (erase k m) ≡ (if o.eq k j then none else find j m)
  unfolding find erase
  find-erase k j [] = ground arith
  find-erase k j ((i, w) ∷ m) =
      ground (arith, o.eq_iff k j, o.eq_iff i k, o.eq_iff i j, find-erase k j m)

  -- `m[k]` in a position that reads: a missing key is inserted with the value `d`.
  pub find-insert_self : (k : K) (v : V) (m : List (K × V)) → find k (insert k v m) ≡ some v
  find-insert_self k v m = rw (find-insert k k v m, eq_self k)
