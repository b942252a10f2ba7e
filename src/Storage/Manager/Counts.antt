-- ===== src/Storage/Manager/Counts.antt =====
-- The counts that a cache holds under a key, and the keys themselves.
use keyfrog.Base.{
  ℤ, ◌+ℤ◌, pos, ◌≡◌, ◌&&◌, [], ◌∷◌, eq_ℤ, eq_ℤ_iff, if◌then◌else◌, arith, int_laws, zero_+ℤ,
  +ℤ_assoc,
}
use keyfrog.Base.Text.{Text, show_int, show_int-Avoids, text_eq, text_eq_iff}
use keyfrog.Base.Key.{text_key}
use keyfrog.Storage.Manager.{Boost, BoostLaws, Cache, cache_key, bump, underscore}

-- The presses counted under a key.
unfoldable pub sum_at : Text → Cache → ℤ
sum_at k [] = pos 0
sum_at k ((j, w) ∷ m) = if text_eq j k then w +ℤ sum_at k m else sum_at k m

add_right_comm : (a b c : ℤ) → a +ℤ b +ℤ c ≡ a +ℤ c +ℤ b
add_right_comm a b c = omega int_laws

add_comm_zero : (a n : ℤ) → pos 0 +ℤ n +ℤ a ≡ a +ℤ n
add_comm_zero a n = omega int_laws

-- One more count changes the sum at its key, and no other.
pub sum_at-bump :
    (k j : Text) (n : ℤ) (m : Cache)
    → sum_at k (bump j n m) ≡ (if text_eq j k then sum_at k m +ℤ n else sum_at k m)
unfolding sum_at bump
sum_at-bump k j n [] = ground (arith, add_comm_zero (pos 0) n, zero_+ℤ n)
sum_at-bump k j n ((i, w) ∷ m) = ground (
  arith,
  text_eq_iff i k,
  text_eq_iff i j,
  text_eq_iff j k,
  sum_at-bump k j n m,
  add_right_comm w n (sum_at k m),
  add_comm_zero (sum_at k m) n,
  add_comm_zero (w +ℤ sum_at k m) n,
  +ℤ_assoc w (sum_at k m) n,
)

module _ (boost : Boost) (laws : BoostLaws boost) where
  pub split-cache_key :
      (g c : ℤ) → boost.split underscore (cache_key g c) ≡ show_int g ∷ show_int c ∷ []
  unfolding cache_key
  split-cache_key g c =
      laws.split_pair underscore (show_int g) (show_int c) (show_int-Avoids g) (show_int-Avoids c)

  -- A key determines its group and its cluster.
  pub cache_key-injective : (g c g' c' : ℤ) → cache_key g c ≡ cache_key g' c' → (g ≡ g') × (c ≡ c')
  cache_key-injective g c g' c' e =
      let split = split-cache_key g c in
      let split' = split-cache_key g' c' in
      let casts = laws.cast_show in
      ground (
        arith,
        split,
        split',
        laws.cast_show g,
        laws.cast_show g',
        laws.cast_show c,
        laws.cast_show c',
        e,
      )

  pub text_eq-cache_key :
      (g c g' c' : ℤ) → text_eq (cache_key g c) (cache_key g' c') ≡ (eq_ℤ c c' && eq_ℤ g g')
  text_eq-cache_key g c g' c' = ground (
    arith,
    text_eq_iff (cache_key g c) (cache_key g' c'),
    cache_key-injective g c g' c',
    eq_ℤ_iff g g',
    eq_ℤ_iff c c',
  )
