-- ===== src/Common/Caseless.antt =====
-- `string_eq_ci` against the comparison of the two texts in small letters.
use keyfrog.Base.{suc, ◌≡◌, refl, ap, ◌↔◌, true, [], ◌∷◌, map, arith, ==_iff, length}
use keyfrog.Base.Text.{Text}
use keyfrog.Common.{tolower, same_letters, string_eq_ci}

same_letters_iff :
    (s t : Text) → length s ≡ length t → (same_letters s t ≡ true) ↔ (map tolower s ≡ map tolower t)
unfolding same_letters
same_letters_iff [] [] h = ground arith
same_letters_iff [] (d ∷ t) h = absurd (omega arith)
same_letters_iff (c ∷ s) [] h = absurd (omega arith)
same_letters_iff (c ∷ s) (d ∷ t) h =
    ground (arith, same_letters_iff s t, ==_iff (tolower c) (tolower d))

length-map-tolower : (s : Text) → length (map tolower s) ≡ length s
length-map-tolower [] = refl
length-map-tolower (c ∷ s) = ap suc (length-map-tolower s)

-- string_eq_ci answers true exactly when the two texts are the same in small letters.
pub string_eq_ci_iff : (s t : Text) → (string_eq_ci s t ≡ true) ↔ (map tolower s ≡ map tolower t)
unfolding string_eq_ci
string_eq_ci_iff s t = ground (
  arith,
  same_letters_iff s t,
  length-map-tolower s,
  length-map-tolower t,
  (λ (e : map tolower s ≡ map tolower t). ap length e),
)

-- So it is an equivalence of texts.
pub string_eq_ci_refl : (s : Text) → string_eq_ci s s ≡ true
string_eq_ci_refl s = (string_eq_ci_iff s s).1 refl

pub string_eq_ci_symm : (s t : Text) → string_eq_ci s t ≡ string_eq_ci t s
string_eq_ci_symm s t = ground (arith, string_eq_ci_iff s t, string_eq_ci_iff t s)
