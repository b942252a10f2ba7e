-- ===== src/Base/Key.antt =====
-- The keys of `std::map` and `std::set`: a type with `==` and `<`.
use Prim.Native.Nat.{ℕ}
use mathlib.Core.Path.{◌≡◌}
use mathlib.Core.Logic.{◌↔◌}
use mathlib.Core.Bool.{Bool, true, ◌&&◌, ◌||◌}
use native.Mathlib.Omega.{arith}
use keyfrog.Base.Tests.{ltb, ◌==◌, ==_iff}
use keyfrog.Base.Int.{ℤ, eq_ℤ, eq_ℤ_iff, ltb_ℤ}
use keyfrog.Base.Text.{Text, text_eq, text_eq_iff, text_lt}

pub record Key {ℓ} (K : Type ℓ) : Type ℓ where
  pub eq : K → K → Bool
  pub lt : K → K → Bool
  pub eq_iff : (a b : K) → (eq a b ≡ true) ↔ (a ≡ b)

instance abbrev pub int_key : Key ℤ
int_key = record { eq = eq_ℤ; lt = ltb_ℤ; eq_iff = eq_ℤ_iff }

instance abbrev pub nat_key : Key ℕ
nat_key = record { eq = ◌==◌; lt = ltb; eq_iff = ==_iff }

instance abbrev pub text_key : Key Text
text_key = record { eq = text_eq; lt = text_lt; eq_iff = text_eq_iff }

abbrev pub pair_eq : ℤ × Text → ℤ × Text → Bool
pair_eq (a, s) (b, t) = eq_ℤ a b && text_eq s t

abbrev pub pair_lt : ℤ × Text → ℤ × Text → Bool
pair_lt (a, s) (b, t) = ltb_ℤ a b || (eq_ℤ a b && text_lt s t)

pub pair_eq_iff : (p q : ℤ × Text) → (pair_eq p q ≡ true) ↔ (p ≡ q)
pair_eq_iff (a, s) (b, t) = ground (arith, eq_ℤ_iff a b, text_eq_iff s t)

instance abbrev pub pair_key : Key (ℤ × Text)
pair_key = record { eq = pair_eq; lt = pair_lt; eq_iff = pair_eq_iff }
