-- ===== src/Process/Mac/Kernel.antt =====
-- `GetUnixProcesses`: the list that the kernel writes, behind any number of lists that had grown.
use keyfrog.Base.{
  ltb→lt, Bool-cases, ℕ, zero, suc, ◌*◌, ◌-◌, ◌%◌, ◌<◌, ◌≤◌, ◌≡◌, refl, ap, inl, inr, true, List,
  [], ◌∷◌, ◌++◌, none, some, arith, ltb, length, take, drop, replicate, All, length-append,
}
use mathlib.Core.List.{append-nil}
use native.Mathlib.Nat.{mul-mod_left, mul-div_cancel, mul-lt-mul_of_pos_right}
use keyfrog.Process.Mac.{
  Kinfo, Round, enomem, returned, resize, fill, get_unix_processes, template_kinfo,
}

-- The list grew between the two calls: the kernel has no room.
abbrev pub HasGrown : ℕ → Round → Type 0
HasGrown size round =
    (n : ℕ) × (round.asks ≡ some (suc n * size))
    × (round.err ≡ some enomem)
    × (round.new_length % size ≡ 0)

-- The kernel writes its list into the room it asked for, and reports its size.
abbrev pub IsWritten : ℕ → Round → Type 0
IsWritten size round =
    (n : ℕ) × (round.asks ≡ some (suc n * size))
    × (round.err ≡ none)
    × (length round.writes ≤ suc n)
    × (round.new_length ≡ length round.writes * size)

length-replicate : (n : ℕ) (k : Kinfo) → length (replicate n k) ≡ n
length-replicate zero k = refl
length-replicate (suc n) k = ap suc (length-replicate n k)

take_nil : (n : ℕ) → take {A = Kinfo} n [] ≡ []
take_nil zero = refl
take_nil (suc n) = refl

sub_zero : (n : ℕ) → n - 0 ≡ n
sub_zero n = omega arith

take-append : (xs ys : List Kinfo) → take (length xs) (xs ++ ys) ≡ xs
take-append [] ys = refl
take-append (x ∷ xs) ys = ap (λ l. x ∷ l) (take-append xs ys)

drop_all : (n : ℕ) (xs : List Kinfo) → length xs ≤ n → drop n xs ≡ []
drop_all zero [] h = refl
drop_all zero (x ∷ xs) h = absurd (ground arith)
drop_all (suc n) [] h = refl
drop_all (suc n) (x ∷ xs) h = drop_all n xs (omega (arith, h))

-- The elements behind those that were written are cut off.
fill_short : (writes procs : List Kinfo) → resize (length writes) (fill writes procs) ≡ writes
unfolding resize fill
fill_short writes procs =
    let rest = drop (length writes) procs in
    let none_over : length writes - length (writes ++ rest) ≡ 0 =
      omega (arith, length-append writes rest) in
    rw (none_over, take-append writes rest) (append-nil writes)

fill_full : (writes : List Kinfo) → fill writes (resize (length writes) []) ≡ writes
unfolding resize fill
fill_full writes =
    let room = replicate (length writes) template_kinfo in
    rw
      (
        sub_zero (length writes),
        take_nil (length writes),
        drop_all (length writes) room
            (omega (arith, length-replicate (length writes) template_kinfo)),
      )
      (append-nil writes)

-- One list that is written.
get_unix_processes_written :
    (size : ℕ) (round : Round) (later : List Round)
    → 0 < size
    → IsWritten size round
    → get_unix_processes size (round ∷ later) [] ≡ returned true round.writes
unfolding get_unix_processes
get_unix_processes_written size round later h (n, asks, err, fits, len) =
    let k = length round.writes in
    let whole = mul-mod_left (suc n) size in
    let whole' = mul-mod_left k size in
    let room = mul-div_cancel (suc n) h in
    let count = mul-div_cancel k h in
    elim (Bool-cases (ltb k (suc n))) [
      | inl short ↦
          let less : k * size < suc n * size = mul-lt-mul_of_pos_right (ltb→lt k (suc n) short) h in
          let cut = fill_short round.writes (resize (suc n) []) in
          ground (arith, whole, whole', room, count, cut)
      | inr full ↦
          let all : k ≡ suc n = ground arith in
          let rest = fill_full round.writes in ground (arith, whole, whole', room, count, rest)
    ]

-- GetUnixProcesses from an empty list, with process entries of a positive size, behind any number
-- of rounds that end with ENOMEM and a whole number of entries, returns true with exactly the
-- entries of the first round in which the kernel writes a list that fits the room asked for and
-- reports its size.
pub get_unix_processes_lem :
    (size : ℕ) (grown : List Round) (round : Round) (later : List Round)
    → 0 < size
    → All (HasGrown size) grown
    → IsWritten size round
    → get_unix_processes size (grown ++ (round ∷ later)) [] ≡ returned true round.writes
unfolding get_unix_processes
get_unix_processes_lem size [] round later h none_grown written =
    get_unix_processes_written size round later h written
get_unix_processes_lem size (g ∷ grown) round later h ((n, asks, err, new), more) written =
    let again = get_unix_processes_lem size grown round later h more written in
    let whole = mul-mod_left (suc n) size in
    let room = mul-div_cancel (suc n) h in ground (arith, whole, room, again)
