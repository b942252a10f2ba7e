-- ===== src/Base/Text.antt =====
-- `std::string` as the list of its bytes, and the decimal form of an int that `<<` writes.
use Prim.Native.Char.{code}
use Prim.Native.Nat.{ℕ, zero, suc, ◌+◌, ◌/◌, ◌%◌, ◌<◌}
use Prim.Native.String.{String}
use mathlib.Core.Path.{◌≡◌}
use mathlib.Core.Logic.{◌↔◌, inl, inr, ◌≢◌}
use mathlib.Core.Bool.{Bool, true, false, ◌&&◌}
use mathlib.Core.List.{List, [], ◌∷◌, ◌++◌}
use native.Mathlib.Omega.{arith}
use keyfrog.Base.Tests.{Bool-cases, ltb→lt, ltb, ◌==◌, if◌then◌else◌}
use keyfrog.Base.Lists.{All, All-append}
use keyfrog.Base.Int.{ℤ, pos, negsuc}

abbrev pub Text : Type 0
Text = List ℕ

abbrev pub text : String → Text
text String.[] = []
text (String.◌∷◌ c s) = code c ∷ text s

-- `==` of two strings.
abbrev pub text_eq : Text → Text → Bool
text_eq [] [] = true
text_eq (a ∷ s) (b ∷ t) = a == b && text_eq s t
text_eq _ _ = false

pub text_eq_iff : (s t : Text) → (text_eq s t ≡ true) ↔ (s ≡ t)
text_eq_iff [] [] = ground arith
text_eq_iff [] (b ∷ t) = ground arith
text_eq_iff (a ∷ s) [] = ground arith
text_eq_iff (a ∷ s) (b ∷ t) = ground (arith, text_eq_iff s t)

-- `<` of two strings, byte by byte.
abbrev pub text_lt : Text → Text → Bool
text_lt (a ∷ s) (b ∷ t) = let rest = text_lt s t in if a == b then rest else ltb a b
text_lt [] (b ∷ t) = true
text_lt _ _ = false

-- The decimal digits of a number below the fuel.
unfoldable pub show_digits : ℕ → ℕ → Text
show_digits zero n = []
show_digits (suc fuel) n =
    let rest = show_digits fuel (n / 10) ++ (48 + n % 10) ∷ [] in
    if ltb n 10 then (48 + n) ∷ [] else rest

unfoldable pub show_nat : ℕ → Text
unfolding show_digits
show_nat n = show_digits (suc n) n

unfoldable pub show_int : ℤ → Text
unfolding show_nat
show_int (pos n) = show_nat n
show_int (negsuc n) = 45 ∷ show_nat (suc n)

abbrev pub Avoids : ℕ → Text → Type 0
Avoids c = All (λ b. b ≢ c)

-- A character that is no digit.
abbrev NoDigit : ℕ → Type 0
NoDigit c = (n : ℕ) → n < 10 → 48 + n ≢ c

show_digits-Avoids : (c fuel n : ℕ) → NoDigit c → Avoids c (show_digits fuel n)
unfolding show_digits
show_digits-Avoids c zero n h = tt
show_digits-Avoids c (suc fuel) n h = elim (Bool-cases (ltb n 10)) [
  | inl small ↦ rw small (h n (ltb→lt n 10 small), tt)
  | inr large ↦ rw large (
      All-append _ (show_digits fuel (n / 10)) ((48 + n % 10) ∷ [])
        (show_digits-Avoids c fuel (n / 10) h) (h (n % 10) (omega arith), tt))
]

pub show_nat-Avoids : (c n : ℕ) → NoDigit c → Avoids c (show_nat n)
unfolding show_nat
show_nat-Avoids c n h = show_digits-Avoids c (suc n) n h

-- No underscore stands in a decimal number.
pub show_int-Avoids : (i : ℤ) → Avoids 95 (show_int i)
unfolding show_int show_nat
show_int-Avoids (pos n) = show_digits-Avoids 95 (suc n) n (λ d small e. omega (arith, small, e))
show_int-Avoids (negsuc n) = (
  λ e. ground arith,
  show_digits-Avoids 95 (suc (suc n)) (suc n) (λ d small e. omega (arith, small, e)),
)
