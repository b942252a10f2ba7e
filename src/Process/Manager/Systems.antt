-- ===== src/Process/Manager/Systems.antt =====
-- The process managers of Linux, FreeBSD and Mac OS X fill the interface.
use keyfrog.Base.{ap, ℕ, ℤ, ◌<◌, ◌≡◌, List, [], ◌∷◌, ◌++◌, Option, some, All}
use keyfrog.Base.Text.{Text}
use keyfrog.Base.Key.{int_key}
use keyfrog.Process.{ProcessMap}
use keyfrog.Process.Graph.{Bgl}
use keyfrog.Process.Linux.{LexicalCast, ProcFs}
use keyfrog.Process.Linux as Linux
use keyfrog.Process.Fbsd as Fbsd
use keyfrog.Process.Mac as Mac
use keyfrog.Process.Mac.{Round}
use keyfrog.Process.Mac.Kernel.{HasGrown, IsWritten, get_unix_processes_lem}
use keyfrog.Process.Manager.{clear, Tree, add_connect_processes, ProcessManager, ProcessManagerLaws}

module _ (cast : LexicalCast) (b : Bgl) where
  abbrev pub linux_manager : ProcessManager b
  linux_manager = record {
    Sight = ProcFs;
    create_proc_tree = λ fuel fs tree. some (Linux.create_proc_tree cast fs b fuel);
    process_exists = λ fs. Linux.process_exists cast fs fs.entries;
    set_process_properties = λ fs. Linux.set_process_properties cast fs;
  }

  pub linux_builds :
      (fs : ProcFs) (procs : ProcessMap) (fuel : ℕ)
      → Linux.enumerate cast fs fs.entries [] ≡ procs
      → Linux.create_proc_tree cast fs b fuel ≡ add_connect_processes b fuel procs (clear b)
  unfolding Linux.create_proc_tree
  linux_builds fs procs fuel shown = ap (λ m. add_connect_processes b fuel m (clear b)) shown

  pub fbsd_builds :
      (procs : List Fbsd.Kinfo) (m : ProcessMap) (fuel : ℕ) (allproc : Option (List Fbsd.Kinfo))
      (tree : Tree b)
      → allproc ≡ some procs
      → Fbsd.enumerate cast procs [] ≡ m
      → Fbsd.create_proc_tree cast b fuel allproc tree ≡ add_connect_processes b fuel m (clear b)
  unfolding Fbsd.create_proc_tree
  fbsd_builds procs m fuel allproc tree given shown =
      rw given (ap (λ q. add_connect_processes b fuel q (clear b)) shown)

  -- An entry for each directory of /proc whose name is a number.
  unfoldable pub linux_manager_laws : ProcessManagerLaws b linux_manager
  linux_manager_laws = record {
    Shows = λ fs procs. Linux.enumerate cast fs fs.entries [] ≡ procs;
    builds = λ fs procs fuel tree shown. ap some (linux_builds fs procs fuel shown);
  }

  abbrev pub fbsd_manager : ProcessManager b
  fbsd_manager = record {
    Sight = Option (List Fbsd.Kinfo);
    create_proc_tree = λ fuel allproc tree. some (Fbsd.create_proc_tree cast b fuel allproc tree);
    process_exists = λ allproc. Fbsd.process_exists;
    set_process_properties = λ allproc. Fbsd.set_process_properties cast;
  }

  unfoldable pub fbsd_manager_laws : ProcessManagerLaws b fbsd_manager
  fbsd_manager_laws = record {
    Shows = λ allproc procs.
        (k : List Fbsd.Kinfo) × (allproc ≡ some k) × (Fbsd.enumerate cast k [] ≡ procs);
    builds = λ allproc procs fuel tree shown.
        ap some (fbsd_builds shown.0 procs fuel allproc tree shown.1 shown.2);
  }

  module _ (proc_pidpath : ℤ → Option Text) (size : ℕ) where
    pub mac_builds :
        (procs : ProcessMap) (fuel : ℕ) (grown later rounds : List Round) (round : Round)
        → 0 < size
        → rounds ≡ grown ++ (round ∷ later)
        → All (HasGrown size) grown
        → IsWritten size round
        → Mac.enumerate cast proc_pidpath round.writes [] ≡ procs
        → Mac.create_proc_tree cast proc_pidpath b fuel size rounds
          ≡ some (add_connect_processes b fuel procs (clear b))
    unfolding Mac.create_proc_tree
    mac_builds procs fuel grown later rounds round h is full written shown =
        rw (is, Mac.create_proc_tree, get_unix_processes_lem size grown round later h full written)
          (ap (λ q. some (add_connect_processes b fuel q (clear b))) shown)

    -- The rounds of sysctl are what a call sees.
    abbrev pub mac_manager : ProcessManager b
    mac_manager = record {
      Sight = List Round;
      create_proc_tree =
          λ fuel rounds tree. Mac.create_proc_tree cast proc_pidpath b fuel size rounds;
      process_exists = λ rounds. Mac.process_exists;
      set_process_properties = λ rounds. Mac.set_process_properties cast proc_pidpath;
    }

    unfoldable pub mac_manager_laws : 0 < size → ProcessManagerLaws b mac_manager
    mac_manager_laws h = record {
      Shows = λ rounds procs.
          (grown later : List Round) × (round : Round) × (rounds ≡ grown ++ (round ∷ later))
          × All (HasGrown size) grown
          × IsWritten size round
          × (Mac.enumerate cast proc_pidpath round.writes [] ≡ procs);
      builds = λ rounds procs fuel tree shown.
          let (grown, later, round, is, full, written, listed) = shown in
          mac_builds procs fuel grown later rounds round h is full written listed;
    }
