-- ===== src/Process/Mac/Name.antt =====
-- The name of a process on Mac OS X is the last part of its path.
use keyfrog.Base.{ℕ, suc, ◌≡◌, refl, [], ◌∷◌, ◌++◌, none, some, arith, ==_iff, length, drop}
use keyfrog.Base.Text.{Text, Avoids}
use keyfrog.Process.Mac.{slash, find_last_of, base_name}

find_last_of-Avoids : (c : ℕ) (s : Text) → Avoids c s → find_last_of c s ≡ none
unfolding find_last_of
find_last_of-Avoids c [] h = refl
find_last_of-Avoids c (a ∷ s) (h, more) = ground (arith, find_last_of-Avoids c s more, ==_iff a c)

find_last_of-append :
    (c : ℕ) (dir name : Text)
    → Avoids c name
    → find_last_of c (dir ++ (c ∷ name)) ≡ some (length dir)
unfolding find_last_of
find_last_of-append c [] name h = ground (arith, find_last_of-Avoids c name h)
find_last_of-append c (a ∷ dir) name h = rw (find_last_of-append c dir name h) refl

drop-append : (c : ℕ) (dir name : Text) → drop (suc (length dir)) (dir ++ (c ∷ name)) ≡ name
drop-append c [] name = refl
drop-append c (a ∷ dir) name = drop-append c dir name

pub base_name-append :
    (dir name : Text) → Avoids slash name → base_name (dir ++ (slash ∷ name)) ≡ name
unfolding base_name
base_name-append dir name h =
    rw (base_name, find_last_of-append slash dir name h) (drop-append slash dir name)

-- A path without a slash is a name.
pub base_name-Avoids : (name : Text) → Avoids slash name → base_name name ≡ name
unfolding base_name
base_name-Avoids name h = rw (base_name, find_last_of-Avoids slash name h) refl
