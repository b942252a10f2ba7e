-- ===== src/Process/Mac.antt =====
-- src/ProcessManagerMac.cpp: the processes of Mac OS X, from `sysctl`.
pub mod Name
pub mod Kernel
use keyfrog.Base.{
  ℕ, suc, ℤ, ◌-◌, ◌/◌, ◌%◌, ◌<◌, Bool, true, false, not, List, [], ◌∷◌, ◌++◌, Option, none, some,
  ltb, length, take, drop, replicate, if◌then◌else◌, ◌==◌,
}
use keyfrog.Base.Text.{Text}
use keyfrog.Base.Key.{int_key}
use keyfrog.Base.Map.{insert}
use keyfrog.Process.{Properties, ProcessMap, no_properties}
use keyfrog.Process.Linux.{LexicalCast, Known}
use keyfrog.Process.Graph.{Bgl}
use keyfrog.Process.Tree.{Tree, clear, Outcome, add_connect_processes}

-- The members of `kinfo_proc` that the program reads.
pub record Kinfo : Type 0 where
  pub p_pid : ℤ
  pub e_ppid : ℤ

-- `template_kinfo`
abbrev pub template_kinfo : Kinfo
template_kinfo = record { p_pid = ℤ.pos 0; e_ppid = ℤ.pos 0 }

-- The errors of `sysctl`: `ENOMEM` and the others.
pub data Errno : Type 0 where
  enomem other : Errno

-- The two answers of `sysctl` in one round: the byte size it asks for, or an error; then what it
-- writes, the byte size it reports, and its error.
pub record Round : Type 0 where
  pub asks : Option ℕ
  pub writes : List Kinfo
  pub new_length : ℕ
  pub err : Option Errno

-- How `GetUnixProcesses` ends: with its answer and `procList`; with `front` of an empty vector; or not
-- yet, behind the rounds given.
pub data Fetched : Type 0 where
  returned : Bool → List Kinfo → Fetched
  undefined asks_on : Fetched

-- `resize` of a vector, and a write into its elements from the front on.
unfoldable pub resize : ℕ → List Kinfo → List Kinfo
resize n procs = take n procs ++ replicate (n - length procs) template_kinfo

unfoldable pub fill : List Kinfo → List Kinfo → List Kinfo
fill writes procs = writes ++ drop (length writes) procs

-- The loop of `GetUnixProcesses`, where `size` is `sizeof(kinfo_proc)`.
unfoldable pub get_unix_processes : (size : ℕ) → List Round → List Kinfo → Fetched
unfolding resize fill
get_unix_processes size [] procs = asks_on
get_unix_processes size (round ∷ later) procs =
    let again = get_unix_processes size later [] in
    elim round.asks [
      | none ↦ returned false procs
      | some bytes ↦
          let sized = resize (bytes / size) procs in
          let filled = fill round.writes sized in
          let exact =
            if ltb round.new_length bytes
            then resize (round.new_length / size) filled
            else filled in
          let ended : Fetched = (elim round.err [
            | none ↦ returned true exact
            | some e ↦ elim e [ enomem ↦ again | other ↦ returned false [] ]
          ]) in
          if not (bytes % size == 0)
          then returned false procs
          else if bytes / size == 0
          then undefined
          else if not (round.new_length % size == 0)
          then returned false []
          else ended
    ]

-- `find_last_of("/")` and the end of a path behind it.
abbrev pub slash : ℕ
slash = 47

unfoldable pub find_last_of : ℕ → Text → Option ℕ
find_last_of c [] = none
find_last_of c (a ∷ s) = elim (find_last_of c s) [
  | some i ↦ some (suc i)
  | none ↦ if a == c then some 0 else none
]

unfoldable pub base_name : Text → Text
unfolding find_last_of
base_name path = elim (find_last_of slash path) [ none ↦ path | some i ↦ drop (suc i) path ]

-- `processExists`, which is still to be written.
abbrev pub process_exists : Text → Bool
process_exists pid_str = true

module _ (cast : LexicalCast) (proc_pidpath : ℤ → Option Text) where
  -- The name of `setProcessProperties`; `none` is a path that `proc_pidpath` does not give.
  unfoldable pub set_name : ℤ → Option Text → Properties → Bool × Properties
  unfolding base_name
  set_name pid known p = elim known [
    | some name ↦ (true, record p { name = name; name_known = true })
    | none ↦ elim (proc_pidpath pid) [
      | none ↦ (false, p)
      | some path ↦ (true, record p { name = base_name path; name_known = true })
    ]
  ]

  -- `setProcessProperties`: the answer and the properties that are left.
  unfoldable pub set_process_properties : ℤ → Known → Properties → Bool × Properties
  unfolding set_name
  set_process_properties pid known p =
      let started : Properties = record p { pid = pid; pid_str = cast.to_text pid } in
      elim known.ppid [
        | none ↦ (false, record started { ppid_known = false })
        | some ppid ↦
            set_name pid known.name
              (record started { ppid = ppid; ppid_str = cast.to_text ppid; ppid_known = true })
      ]

  -- The loop of `createProcTree`, which does not look at the answer of `setProcessProperties`.
  unfoldable pub enumerate : List Kinfo → ProcessMap → ProcessMap
  unfolding set_process_properties
  enumerate [] procs = procs
  enumerate (k ∷ rest) procs =
      let known : Known = record { ppid = some k.e_ppid; name = none } in
      enumerate rest (insert k.p_pid (set_process_properties k.p_pid known no_properties).1 procs)

  -- `createProcTree`, behind `GetUnixProcesses`, whose answer is not looked at.
  unfoldable pub create_proc_tree : (b : Bgl) → (fuel size : ℕ) → List Round → Option (Outcome b)
  unfolding get_unix_processes enumerate
  create_proc_tree b fuel size rounds = elim (get_unix_processes size rounds []) [
    | returned _ procs ↦ some (add_connect_processes b fuel (enumerate procs []) (clear b))
    | undefined ↦ none
    | asks_on ↦ none
  ]
