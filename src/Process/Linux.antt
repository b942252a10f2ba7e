-- ===== src/Process/Linux.antt =====
-- src/ProcessManagerLinux.cpp: processes from the proc file system.
pub mod Stat
use keyfrog.Base.{
  ℕ, zero, suc, ℤ, pos, ◌-◌, ◌≡◌, Bool, true, false, not, List, [], ◌∷◌, Option, none, some, eq_ℤ,
  length, take, drop, if◌then◌else◌, ◌==◌,
}
use keyfrog.Base.Text.{Text, text, text_eq}
use keyfrog.Base.Decimal.{is_space}
use keyfrog.Base.Key.{int_key}
use keyfrog.Base.Map.{insert}
use keyfrog.Process.{Properties, ProcessMap, no_properties}
use keyfrog.Process.Graph.{Bgl}
use keyfrog.Process.Tree.{Tree, clear, Outcome, add_connect_processes}

-- `boost::lexical_cast` between ints and texts; `none` is the exception `bad_lexical_cast`.
pub record LexicalCast : Type 0 where
  pub to_int : Text → Option ℤ
  pub to_text : ℤ → Text

-- The proc file system at one time.
pub record ProcFs : Type 0 where
  -- the names in /proc, and whether each is a directory
  pub entries : List (Text × Bool)
  -- the text of /proc/pid/stat, if there is one
  pub stat : Text → Option Text

-- White space at the front is skipped.
unfoldable pub skip_spaces : Text → Text
skip_spaces [] = []
skip_spaces (c ∷ s) = let more = skip_spaces s in if is_space c then more else c ∷ s

-- The characters up to the next white space, and what follows them.
unfoldable pub split_word : Text → Text × Text
split_word [] = ([], [])
split_word (c ∷ s) =
    let (word, rest) = split_word s in if is_space c then ([], c ∷ s) else (c ∷ word, rest)

-- `statFile >> trm`: the word and the rest of the stream. At the end of the stream `trm` is left.
unfoldable pub read_word : Text → Text → Text × Text
unfolding skip_spaces split_word
read_word trm stream = elim (skip_spaces stream) [ [] ↦ (trm, []) | c ∷ s ↦ split_word (c ∷ s) ]

-- `trm.substr(1, trm.size() - 2)`, which throws on an empty text.
unfoldable pub inner : Text → Option Text
inner [] = none
inner (c ∷ s) = some (take (length s - 1) s)

-- The `try` block ends with properties, and tells if it threw.
pub data Tried : Type 0 where
  set threw : Properties → Tried

-- What a caller of `setProcessProperties` may know of a process already.
pub record Known : Type 0 where
  pub ppid : Option ℤ
  pub name : Option Text

-- The parent's pid, once its word was read as a number or not.
unfoldable pub parent_of : Option ℤ → Text → Properties → Tried
parent_of none word p = threw p
parent_of (some ppid) word p = set (record p { ppid = ppid; ppid_str = word; ppid_known = true })

module _ (cast : LexicalCast) (fs : ProcFs) where
  -- The parent, from the fourth word on.
  unfoldable pub try_parent : Known → Text → Text → Properties → Tried
  try_parent known trm stream p = elim known.ppid [
    | some ppid ↦ set (record p { ppid = ppid; ppid_str = cast.to_text ppid; ppid_known = true })
    | none ↦ let (word, _) = read_word trm stream in parent_of (cast.to_int word) word p
  ]

  -- The name, from the second word, and the parent.
  unfoldable pub try_name : Known → Text → Text → Properties → Tried
  try_name known trm stream p =
      let (state, rest) = read_word trm stream in
      elim known.name [
        | some name ↦ try_parent known state rest (record p { name = name; name_known = true })
        | none ↦ elim (inner trm) [
          | none ↦ threw p
          | some name ↦ try_parent known state rest (record p { name = name; name_known = true })
        ]
      ]

  -- The `try` block of `setProcessProperties`.
  unfoldable pub try_properties : ℤ → Known → Properties → Tried
  try_properties pid known p =
      let pid_str = cast.to_text pid in
      let started : Properties = record p { pid = pid; pid_str = pid_str } in
      elim (fs.stat pid_str) [
        | none ↦ threw started
        | some content ↦
            let (first, rest) = read_word [] content in
            let (second, rest') = read_word first rest in try_name known second rest' started
      ]

  -- `setProcessProperties`: the answer, and the properties that are left, also after a failure.
  unfoldable pub set_process_properties : ℤ → Known → Properties → Bool × Properties
  set_process_properties pid known p = elim (try_properties pid known p) [
    | set p' ↦ (true, p')
    | threw p' ↦
        if eq_ℤ (pos 0) p'.pid
        then (true, record p' { ppid = pos 0; ppid_str = text "0"; name = text "[void process 0]" })
        else (false, p')
  ]

  -- `processExists`, where the directory is /proc.
  unfoldable pub process_exists : List (Text × Bool) → Text → Bool
  process_exists [] pid_str = false
  process_exists ((name, is_directory) ∷ rest) pid_str =
      let elsewhere = process_exists rest pid_str in
      if text_eq name pid_str then is_directory else elsewhere

  -- The loop of `createProcTree`: an entry for each directory whose name is a number. The answer of
  -- `setProcessProperties` is not looked at.
  unfoldable pub enumerate : List (Text × Bool) → ProcessMap → ProcessMap
  enumerate [] procs = procs
  enumerate ((name, is_directory) ∷ rest) procs =
      let unknown : Known = record { ppid = none; name = none } in
      enumerate rest (
        if is_directory
        then elim (cast.to_int name) [
          | none ↦ procs
          | some pid ↦ insert pid (set_process_properties pid unknown no_properties).1 procs
        ]
        else procs)

  -- `createProcTree`
  unfoldable pub create_proc_tree : (b : Bgl) → ℕ → Outcome b
  create_proc_tree b fuel = add_connect_processes b fuel (enumerate fs.entries []) (clear b)
