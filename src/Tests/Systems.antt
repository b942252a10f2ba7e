-- ===== src/Tests/Systems.antt =====
-- The processes of Mac OS X and FreeBSD, and the debug output.
use keyfrog.Base.{
  ==_iff, ◌||◌, ℕ, ℤ, pos, ◌≡◌, refl, Bool, true, false, List, [], ◌∷◌, ◌++◌, Option, none, some,
  All, map, ◌==◌, if◌then◌else◌, arith,
}
use keyfrog.Base.Key.{int_key}
use keyfrog.Base.Text.{Text, text, Avoids}
use keyfrog.Process.Tree.{clear}
use keyfrog.Process.Linux.{LexicalCast}
use keyfrog.Process.Mac as Mac
use keyfrog.Process.Mac.{Round, enomem, returned, get_unix_processes}
use keyfrog.Process.Mac.Kernel.{HasGrown, IsWritten, get_unix_processes_lem}
use keyfrog.Process.Fbsd.{Kinfo, create_proc_tree}
use keyfrog.Process.Fbsd.Same.{RunsFrom, seen, create_proc_tree-eq-Mac_create_proc_tree}
use keyfrog.TermCode.{term_codes, null_output, escape}
use keyfrog.Debug.{Debug}
use keyfrog.Debug as Debug
use keyfrog.Debug.Output.{Call, dbg_all, IsPlain, Fits, dbg_all_lem}
use keyfrog.Tests.Instances.{bgl}

-- A text without a character.
abbrev has : ℕ → Text → Bool
has c [] = false
has c (b ∷ t) = b == c || has c t

apart : (c : ℕ) (t : Text) → has c t ≡ false → Avoids c t
apart c [] h = tt
apart c (b ∷ t) h = ((λ e. ground (arith, ==_iff b c)), apart c t (ground arith))

-- Two processes, whose list has grown once.
abbrev vim : Kinfo
vim = record { ki_pid = pos 42; ki_ppid = pos 1; ki_comm = text "vim" }

abbrev init : Kinfo
init = record { ki_pid = pos 1; ki_ppid = pos 0; ki_comm = text "init" }

abbrev pub procs : List Kinfo
procs = init ∷ vim ∷ []

abbrev pub grown : Round
grown = record { asks = some 648; writes = []; new_length = 648; err = some enomem }

abbrev pub listed : Round
listed = record { asks = some 1944; writes = map seen procs; new_length = 1296; err = none }

pub grown-HasGrown : All (HasGrown 648) (grown ∷ [])
grown-HasGrown = ((0, refl, refl, refl), tt)

pub listed-IsWritten : IsWritten 648 listed
listed-IsWritten = (2, refl, refl, omega arith, refl)

get_unix_processes_lem_example :
    get_unix_processes 648 ((grown ∷ []) ++ (listed ∷ [])) [] ≡ returned true listed.writes
get_unix_processes_lem_example =
    get_unix_processes_lem 648 (grown ∷ []) listed [] (omega arith) grown-HasGrown listed-IsWritten

abbrev pub cast : LexicalCast
cast = record { to_int = λ s. none; to_text = λ i. [] }

abbrev pub proc_pidpath : ℤ → Option Text
proc_pidpath (pos n) = if n == 1 then some (text "/sbin/init") else some (text "/usr/bin/vim")
proc_pidpath _ = none

procs-RunsFrom : All (RunsFrom proc_pidpath) procs
procs-RunsFrom = (
  (text "/sbin", refl, apart Mac.slash (text "init") refl),
  ((text "/usr/bin", refl, apart Mac.slash (text "vim") refl), tt),
)

create_proc_tree-eq-Mac_create_proc_tree_example :
    Mac.create_proc_tree cast proc_pidpath bgl 3 648 ((grown ∷ []) ++ (listed ∷ []))
    ≡ some (create_proc_tree cast bgl 3 (some procs) (clear bgl))
create_proc_tree-eq-Mac_create_proc_tree_example =
    create_proc_tree-eq-Mac_create_proc_tree cast proc_pidpath bgl 3 648 procs (grown ∷ []) listed
      [] (clear bgl) (omega arith) grown-HasGrown listed-IsWritten refl procs-RunsFrom

-- Two calls: one with a place and a newline, one with neither.
abbrev home : Debug.Host
home = record { home = some (text "/home/ann"); opens = true }

abbrev call : ℕ → Text → Call
call flag m = record { f = text "Daemon.cpp"; l = 90; flag = flag; message = some m }

abbrev calls : List (Debug.Host × Call)
calls = (home, call 0 (text "up")) ∷ (home, call 3 (text "ok")) ∷ []

abbrev unwritten : Debug
unwritten = record { log_file_path = none; buffer = 0; log = []; std_err = []; std_out = [] }

plain_message : (s m : Text) → has escape s ≡ false → some s ≡ some m → Avoids escape m
plain_message s m h e = apart escape m (ground arith)

calls-IsPlain : All (λ (c : Debug.Host × Call). IsPlain c.1) calls
calls-IsPlain = (
  (apart escape (text "Daemon.cpp") refl, λ m e. plain_message (text "up") m refl e),
  ((apart escape (text "Daemon.cpp") refl, λ m e. plain_message (text "ok") m refl e), tt),
)

dbg_all_lem_example :
    (d : Debug) × (t : Text) × (dbg_all (null_output term_codes) calls unwritten ≡ some d)
    × Fits d
    × Avoids escape t
    × (d.std_err ≡ [] ++ t)
    × (All (λ (c : Debug.Host × Call). c.0.opens ≡ true) calls → d.log ≡ [] ++ t)
dbg_all_lem_example =
    dbg_all_lem term_codes calls unwritten
      ((text "/home/ann", refl), ((text "/home/ann", refl), tt)) calls-IsPlain
      (λ path e. absurd (ground arith))
