-- ===== src/Process/Fbsd.antt =====
-- src/ProcessManagerFBSD.cpp: the processes of FreeBSD, from `kinfo_getallproc`.
pub mod Same
use keyfrog.Base.{ℕ, ℤ, Bool, true, false, List, [], ◌∷◌, Option, none, some}
use keyfrog.Base.Text.{Text}
use keyfrog.Base.Key.{int_key}
use keyfrog.Base.Map.{insert}
use keyfrog.Process.{Properties, ProcessMap, no_properties}
use keyfrog.Process.Linux.{LexicalCast, Known}
use keyfrog.Process.Graph.{Bgl}
use keyfrog.Process.Tree.{Tree, clear, Outcome, returned, add_connect_processes}

-- The members of `kinfo_proc` that the program reads.
pub record Kinfo : Type 0 where
  pub ki_pid : ℤ
  pub ki_ppid : ℤ
  pub ki_comm : Text

-- The parent of `setProcessProperties`, and the name.
abbrev pub with_ppid : LexicalCast → Option ℤ → Properties → Properties
with_ppid cast none p = record p { ppid_known = false }
with_ppid cast (some ppid) p = record p {
  ppid = ppid;
  ppid_str = cast.to_text ppid;
  ppid_known = true;
}

abbrev pub with_name : Option Text → Properties → Properties
with_name none p = record p { name_known = false }
with_name (some name) p = record p { name = name; name_known = true }

-- `processExists`, which is still to be written.
abbrev pub process_exists : Text → Bool
process_exists pid_str = true

module _ (cast : LexicalCast) where
  -- `setProcessProperties`, whose conversions to texts give no exception.
  unfoldable pub set_process_properties : ℤ → Known → Properties → Bool × Properties
  set_process_properties pid known p =
      let started : Properties = record p { pid = pid; pid_str = cast.to_text pid } in
      (true, with_name known.name (with_ppid cast known.ppid started))

  -- The loop of `createProcTree`.
  unfoldable pub enumerate : List Kinfo → ProcessMap → ProcessMap
  unfolding set_process_properties
  enumerate [] procs = procs
  enumerate (k ∷ rest) procs =
      let known : Known = record { ppid = some k.ki_ppid; name = some k.ki_comm } in
      enumerate rest (insert k.ki_pid (set_process_properties k.ki_pid known no_properties).1 procs)

  -- `createProcTree`; the tree is left as it is when the system gives no processes.
  unfoldable pub create_proc_tree :
      (b : Bgl) → (fuel : ℕ) → Option (List Kinfo) → Tree b → Outcome b
  unfolding enumerate
  create_proc_tree b fuel allproc tree = elim allproc [
    | none ↦ returned true tree
    | some procs ↦ add_connect_processes b fuel (enumerate procs []) (clear b)
  ]
