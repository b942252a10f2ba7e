-- ===== src/Process/Fbsd/Same.antt =====
-- FreeBSD and Mac OS X: the same processes make the same process map.
use keyfrog.Base.{sym, ◌<◌, ℕ, ℤ, ◌≡◌, refl, List, [], ◌∷◌, ◌++◌, Option, some, map, All}
use keyfrog.Base.Text.{Text, Avoids}
use keyfrog.Base.Key.{int_key}
use keyfrog.Process.{ProcessMap}
use keyfrog.Process.Graph.{Bgl}
use keyfrog.Process.Tree.{Tree}
use keyfrog.Process.Mac.{Round}
use keyfrog.Process.Mac.Kernel.{HasGrown, IsWritten, get_unix_processes_lem}
use keyfrog.Process.Linux.{LexicalCast}
use keyfrog.Process.Mac as Mac
use keyfrog.Process.Mac.{base_name, slash}
use keyfrog.Process.Mac.Name.{base_name-append}
use keyfrog.Process.Fbsd.{Kinfo, create_proc_tree, enumerate}

-- The kernel of Mac OS X knows the process under the same pids.
abbrev pub seen : Kinfo → Mac.Kinfo
seen k = record { p_pid = k.ki_pid; e_ppid = k.ki_ppid }

-- Its path ends in the command's name, which has no slash.
abbrev pub RunsFrom : (ℤ → Option Text) → Kinfo → Type 0
RunsFrom proc_pidpath k =
    (dir : Text) × (proc_pidpath k.ki_pid ≡ some (dir ++ (slash ∷ k.ki_comm)))
    × Avoids slash k.ki_comm

-- The loop of both managers.
enumerate-eq-Mac_enumerate :
    (cast : LexicalCast) (proc_pidpath : ℤ → Option Text) (procs : List Kinfo) (before : ProcessMap)
    → All (RunsFrom proc_pidpath) procs
    → enumerate cast procs before ≡ Mac.enumerate cast proc_pidpath (map seen procs) before
unfolding enumerate Mac.enumerate Mac.set_process_properties Mac.set_name
enumerate-eq-Mac_enumerate cast proc_pidpath [] before h = refl
enumerate-eq-Mac_enumerate cast proc_pidpath (k ∷ rest) before ((dir, path, plain), more) =
    let same : base_name (dir ++ (slash ∷ k.ki_comm)) ≡ k.ki_comm =
      base_name-append dir k.ki_comm plain in
    rw (Mac.enumerate, Mac.set_process_properties, Mac.set_name, path, same)
      (enumerate-eq-Mac_enumerate cast proc_pidpath rest _ more)

-- On Mac OS X, behind any number of lists that had grown, a list that the kernel writes into the
-- room asked for makes the tree that FreeBSD makes of the same processes, if the path of each ends
-- in a slash and its command's name, which has no slash, and a process entry has a positive size.
pub create_proc_tree-eq-Mac_create_proc_tree :
    (cast : LexicalCast) (proc_pidpath : ℤ → Option Text) (b : Bgl) (fuel size : ℕ)
    (procs : List Kinfo) (grown : List Round) (round : Round) (later : List Round) (tree : Tree b)
    → 0 < size
    → All (HasGrown size) grown
    → IsWritten size round
    → round.writes ≡ map seen procs
    → All (RunsFrom proc_pidpath) procs
    → Mac.create_proc_tree cast proc_pidpath b fuel size (grown ++ (round ∷ later))
      ≡ some (create_proc_tree cast b fuel (some procs) tree)
unfolding create_proc_tree Mac.create_proc_tree
create_proc_tree-eq-Mac_create_proc_tree cast proc_pidpath b fuel size procs grown round later tree
      h full written same runs =
    let fetched = get_unix_processes_lem size grown round later h full written in
    let mapped = enumerate-eq-Mac_enumerate cast proc_pidpath procs [] runs in
    rw (Mac.create_proc_tree, fetched, same, sym mapped) refl
