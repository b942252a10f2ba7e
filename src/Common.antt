-- ===== src/Common.antt =====
-- src/Common.cpp.
pub mod Caseless
use keyfrog.Base.{
  ℕ, suc, ◌+◌, ◌≡◌, refl, ◌↔◌, Bool, true, false, not, ◌&&◌, List, [], ◌∷◌, map, arith, leb, ◌==◌,
  if◌then◌else◌, length,
}
use keyfrog.Base.Text.{Text, text_eq}

-- `std::tolower` of a byte in the "C" locale, in which the program runs.
unfoldable pub tolower : ℕ → ℕ
tolower c = if leb b'A' c && leb c b'Z' then c + 32 else c

-- The loop of `string_eq_ci` over two strings.
unfoldable pub same_letters : Text → Text → Bool
unfolding tolower
same_letters [] _ = true
same_letters (c ∷ cs) [] = true
same_letters (c ∷ cs) (d ∷ ds) =
    let rest = same_letters cs ds in if not (tolower c == tolower d) then false else rest

unfoldable pub string_eq_ci : Text → Text → Bool
unfolding same_letters
string_eq_ci s t = if not (length s == length t) then false else same_letters s t
