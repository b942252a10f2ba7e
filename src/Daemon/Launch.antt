-- ===== src/Daemon/Launch.antt =====
-- `daemonize`, `connectXserver` and the start of `run` of src/Daemon.cpp, and `main` of
-- src/keyfrog.cpp.
use keyfrog.Base.{
  ℕ, Bool, true, false, not, ◌&&◌, List, [], ◌∷◌, ◌++◌, Option, none, some, ◌==◌, ltb,
  if◌then◌else◌,
}
use keyfrog.Base.Key.{nat_key}
use keyfrog.Base.Map.{find, insert, erase}
use keyfrog.Base.Text.{Text, text}
use keyfrog.Config as Config
use keyfrog.Monitor.Connect.{Server, Recorder, connect, start}
use keyfrog.Daemon.Start.{main_thread, process_monitor, System, Program, new_daemon}

-- How a part of the start ends: it goes on; it throws; it uses what was never set; it still waits for
-- the X server; or the process exits, with its status.
pub data Launch (A : Type 0) : Type 0 where
  ok : A → Launch A
  threw crashed waits : Launch A
  exits : ℕ → Launch A

infixl 5 ◌>>=◌
abbrev pub ◌>>=◌ : {A B : Type 0} → Launch A → (A → Launch B) → Launch B
ok a >>= f = f a
threw >>= f = threw
crashed >>= f = crashed
waits >>= f = waits
exits n >>= f = exits n

-- What `fork` gives: an error, or one of the two processes.
pub data Fork : Type 0 where
  failed parent child : Fork

-- What the start asks of the system: `fork`, the build option for debug output, the descriptors that
-- `open` gives for the three files, and the X server's answers, one for each attempt to connect.
pub record Host : Type 0 where
  pub fork : Fork
  pub debug : Bool
  pub opens_err : Option ℕ
  pub opens_out : Option ℕ
  pub opens_null : Option ℕ
  pub servers : List Server

abbrev pub Descriptors : Type 0
Descriptors = List (ℕ × Text)

-- `dup2`, which leaves everything as it is for a descriptor that is not open, and `close`.
unfoldable pub dup2 : ℕ → ℕ → Descriptors → Descriptors
dup2 source target fds = elim (find source fds) [ none ↦ fds | some file ↦ insert target file fds ]

unfoldable pub close_above : Bool → ℕ → Descriptors → Descriptors
close_above test fd fds = if test && ltb 2 fd then erase fd fds else fds

-- The end of `daemonize`: the three standard descriptors are redirected.
unfoldable pub redirect : (fd_err fd_out : ℕ) → Descriptors → Descriptors
unfolding dup2 close_above
redirect fd_err fd_out fds =
    let copied = dup2 fd_err 2 (dup2 fd_out 1 (dup2 fd_out 0 fds)) in
    close_above (not (fd_err == fd_out)) fd_out (close_above true fd_err copied)

-- The files that `daemonize` opens; `none` for a failure, after which the first one stays open.
unfoldable pub open_files : Host → Descriptors → Bool × Descriptors
unfolding redirect
open_files host fds =
    if host.debug
    then (elim host.opens_err [
      | none ↦ (false, fds)
      | some fd_err ↦
          let with_err = insert fd_err (text "/tmp/kf.err") fds in
          elim host.opens_out [
            | none ↦ (false, with_err)
            | some fd_out ↦
                (true, redirect fd_err fd_out (insert fd_out (text "/tmp/kf.out") with_err))
          ]
    ])
    else (elim host.opens_null [
      | none ↦ (false, fds)
      | some fd_out ↦ (true, redirect fd_out fd_out (insert fd_out (text "/dev/null") fds))
    ])

-- `daemonize`. The child of `fork` has one thread, a copy of the one that called it. `setsid`, `chdir`
-- and `umask` change nothing that is kept here.
unfoldable pub daemonize : Host → Program → Launch (Bool × Program)
unfolding open_files
daemonize host p = elim host.fork [
  | failed ↦ ok (false, p)
  | parent ↦ exits 0
  | child ↦
      let (answer, fds) = open_files host p.descriptors in
      ok (answer, record p { threads = main_thread ∷ []; descriptors = fds })
]

-- `connectXserver`: attempts up to the first that succeeds, and the servers that are left.
unfoldable pub connect_xserver : List Server → Text → Program → Launch (Program × List Server)
connect_xserver [] display_name p = waits
connect_xserver (server ∷ later) display_name p = elim (connect server display_name p.recorder) [
  | none ↦ threw
  | some (answer, recorder) ↦
      let rest = connect_xserver later display_name (record p { recorder = recorder }) in
      let started : Launch (Program × List Server) = (elim (start server recorder) [
        | none ↦ threw
        | some recorder' ↦ ok (record p { x_connected = true; recorder = recorder' }, later)
      ]) in
      if answer then started else rest
]

-- The thread of the process monitor is started.
abbrev pub monitored : Program → Program
monitored p = record p { threads = p.threads ++ (process_monitor ∷ []) }

-- `run` from behind `daemonize` up to its loop. The process tree that it builds is no part of what is
-- kept here.
unfoldable pub run_connected : Host → Program → Launch Program
unfolding connect_xserver
run_connected host p =
    let fresh = connect_xserver host.servers (text ":0") p >>= λ r. ok (monitored r.0) in
    if p.x_connected then ok (monitored p) else fresh

-- `run` up to its loop.
unfoldable pub run_start : Host → Program → Launch Program
unfolding daemonize run_connected
run_start host p =
    let background = daemonize host p >>= λ r. if r.0 then run_connected host r.1 else threw in
    elim p.configuration.options.daemon_mode [
      | none ↦ crashed
      | some as_daemon ↦ if as_daemon then background else run_connected host p
    ]

-- The command line, as it is parsed.
pub record Arguments : Type 0 where
  pub help : Bool
  pub nb : Bool
  pub display : Option Text

-- What comes of the constructor.
abbrev pub constructed : Config.Read Program → Launch Program
constructed (Config.ok p) = ok p
constructed Config.threw = threw
constructed Config.crashed = crashed

-- `main`, up to the loop of `run`.
unfoldable pub main : System → Recorder → Descriptors → Host → Arguments → Launch Program
unfolding new_daemon run_start
main system recorder descriptors host arguments =
    let daemon_mode = if arguments.nb then false else true in
    let launched = (do
      daemon ← constructed (new_daemon system recorder descriptors daemon_mode)
      (elim arguments.display [
        | none ↦ run_start host daemon
        | some name ↦ do
          (connected, later) ← connect_xserver host.servers name daemon
          run_start (record host { servers = later }) connected
      ])) in
    if arguments.help then exits 0 else launched
