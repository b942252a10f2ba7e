-- ===== src/Base/Decimal.antt =====
-- `atoi`, and the round trip of an int through its decimal form.
use Prim.Native.Nat.{ℕ, zero, suc, ◌+◌, ◌-◌, ◌*◌, ◌/◌, ◌%◌, ◌<◌}
use mathlib.Core.Path.{◌≡◌, refl, ap, ◌∙◌}
use mathlib.Core.Logic.{inl, inr}
use mathlib.Core.Bool.{Bool, true, ◌&&◌, ◌||◌}
use mathlib.Core.List.{[], ◌∷◌, ◌++◌}
use native.Mathlib.Omega.{arith}
use keyfrog.Base.Tests.{ltb, leb, ◌==◌, if◌then◌else◌, Bool-cases, ltb→lt}
use keyfrog.Base.Lists.{All, All-append}
use keyfrog.Base.Int.{ℤ, pos, negsuc, sub_ℕ}
use keyfrog.Base.Text.{Text, show_digits, show_nat, show_int}

abbrev pub is_digit : ℕ → Bool
is_digit c = leb b'0' c && leb c b'9'

-- The number at the front of a text.
unfoldable pub read_digits : ℕ → Text → ℕ
read_digits n [] = n
read_digits n (c ∷ s) =
    let more = read_digits (n * 10 + (c - 48)) s in if is_digit c then more else n

-- The white space of the "C" locale.
abbrev pub is_space : ℕ → Bool
is_space c = c == 32 || leb 9 c && leb c 13

-- `atoi`, of a text whose number an int can hold.
unfoldable pub atoi : Text → ℤ
unfolding read_digits
atoi [] = pos 0
atoi (c ∷ s) =
    let skip = atoi s in
    if is_space c
    then skip
    else if c == b'-'
    then sub_ℕ 0 (read_digits 0 s)
    else if c == b'+'
    then pos (read_digits 0 s)
    else pos (read_digits 0 (c ∷ s))

AllDigits : Text → Type 0
AllDigits = All (λ c. is_digit c ≡ true)

read_digits-append :
    (n : ℕ) (s t : Text) → AllDigits s → read_digits n (s ++ t) ≡ read_digits (read_digits n s) t
unfolding read_digits AllDigits
read_digits-append n [] t h = refl
read_digits-append n (c ∷ s) t h = ground (arith, read_digits-append (n * 10 + (c - 48)) s t h.1)

show_digits-AllDigits : (fuel n : ℕ) → AllDigits (show_digits fuel n)
unfolding show_digits AllDigits
show_digits-AllDigits zero n = tt
show_digits-AllDigits (suc fuel) n = elim (Bool-cases (ltb n 10)) [
  | inl small ↦ rw small (ground arith, tt)
  | inr large ↦ rw large (
      All-append _ (show_digits fuel (n / 10)) ((48 + n % 10) ∷ [])
        (show_digits-AllDigits fuel (n / 10)) (ground arith, tt))
]

read_one : (n d : ℕ) → d < 10 → read_digits n ((48 + d) ∷ []) ≡ n * 10 + d
unfolding read_digits
read_one n d h = ground arith

read_digits-show_digits : (fuel n : ℕ) → n < fuel → read_digits 0 (show_digits fuel n) ≡ n
unfolding show_digits
read_digits-show_digits zero n h = elim h [ ]
read_digits-show_digits (suc fuel) n h = elim (Bool-cases (ltb n 10)) [
  | inl small ↦ rw small (read_one 0 n (ltb→lt n 10 small) ∙ omega arith)
  | inr large ↦ rw large (
      read_digits-append 0 (show_digits fuel (n / 10)) ((48 + n % 10) ∷ [])
        (show_digits-AllDigits fuel (n / 10))
      ∙ read_one (read_digits 0 (show_digits fuel (n / 10))) (n % 10) (omega arith)
      ∙ ground (arith, read_digits-show_digits fuel (n / 10)))
]

pub read_digits-show_nat : (n : ℕ) → read_digits 0 (show_nat n) ≡ n
unfolding show_nat
read_digits-show_nat n = read_digits-show_digits (suc n) n (omega arith)

-- A text that starts with a digit is read as its digits.
atoi-digits : (s : Text) → AllDigits s → atoi s ≡ pos (read_digits 0 s)
unfolding atoi AllDigits read_digits
atoi-digits [] h = refl
atoi-digits (c ∷ s) h = ground arith

atoi-minus : (s : Text) → atoi (b'-' ∷ s) ≡ sub_ℕ 0 (read_digits 0 s)
unfolding atoi
atoi-minus s = refl

sub_zero : (n : ℕ) → sub_ℕ 0 (suc n) ≡ negsuc n
sub_zero n = ground arith

-- `atoi` reads what `<<` writes.
pub atoi-show_int : (i : ℤ) → atoi (show_int i) ≡ i
unfolding show_int
atoi-show_int (pos n) =
    atoi-digits (show_nat n) (unfold show_nat in show_digits-AllDigits (suc n) n)
    ∙ ap pos (read_digits-show_nat n)
atoi-show_int (negsuc n) =
    atoi-minus (show_nat (suc n)) ∙ ap (sub_ℕ 0) (read_digits-show_nat (suc n)) ∙ sub_zero n
