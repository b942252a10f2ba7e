-- ===== src/Daemon/Threads.antt =====
-- Which threads run once the daemon has started, in the foreground and in the background.
use keyfrog.Base.{
  subst, if_of_false, ◌≢◌, ◌≡◌, refl, sym, ap, ◌∙◌, ◌⊎◌, inl, inr, Bool, true, false, not, List, [],
  ◌∷◌, ◌++◌, some, arith, Bool-cases, Option-cases, if◌then◌else◌,
}
use keyfrog.Base.Text.{Text, text}
use keyfrog.Config as Config
use keyfrog.Config.{Read, Configuration, read_config}
use keyfrog.Config.Keeps.{Read-cases, read_config-SameStart}
use keyfrog.Monitor.Connect.{Server, Recorder, connect, start}
use keyfrog.Storage.Sqlite.Connect.{manager_connect}
use keyfrog.Daemon.Start.{
  Thread, main_thread, committer, process_monitor, System, Program, prepared, unconnected,
  open_storage, new_daemon,
}
use keyfrog.Daemon.Launch.{
  monitored, run_connected, Launch, ok, threw, crashed, waits, exits, ◌>>=◌, Host, Fork, failed,
  parent, child, Descriptors, Arguments, daemonize, connect_xserver, run_start, constructed, main,
}

module _ (system : System) (recorder : Recorder) (descriptors : Descriptors) where
  -- A program as the constructor leaves it.
  abbrev pub IsNew : Bool → Program → Type 0
  IsNew as_daemon p =
      (p.threads ≡ main_thread ∷ committer ∷ [])
      × (p.configuration.options.daemon_mode ≡ some as_daemon)
      × (p.x_connected ≡ false)

  new_daemon-IsNew :
      (as_daemon : Bool) (p : Program)
      → new_daemon system recorder descriptors as_daemon ≡ Config.ok p
      → IsNew as_daemon p
  unfolding new_daemon open_storage
  new_daemon-IsNew as_daemon p e = elim (Option-cases system.home) [
    | inl homeless ↦ absurd (ground arith)
    | inr (home, is) ↦
        let c0 = prepared home as_daemon in
        elim (Read-cases (read_config (system.document c0.config_path) c0)) [
          | inr bad ↦ absurd (ground arith)
          | inl (c, read) ↦
              let (mode, _, _) = read_config-SameStart (system.document c0.config_path) c0 c read in
              let uri = home ++ text "/.keyfrog/keyfrog.db" in
              elim (Option-cases (manager_connect (system.database uri) uri unconnected)) [
                | inl bad ↦ absurd (ground arith)
                | inr (connection, connected) ↦ (ground arith, ground (arith, mode), ground arith)
              ]
        ]
  ]

-- Connecting keeps the threads and the configuration.
pub connect_xserver-keeps :
    (servers : List Server) (name : Text) (p q : Program) (later : List Server)
    → connect_xserver servers name p ≡ ok (q, later)
    → (q.threads ≡ p.threads) × (q.configuration ≡ p.configuration) × (q.x_connected ≡ true)
unfolding connect_xserver
connect_xserver-keeps [] name p q later e = ground arith
connect_xserver-keeps (server ∷ servers) name p q later e =
    elim (Option-cases (connect server name p.recorder)) [
      | inl bad ↦ absurd (ground arith)
      | inr ((answer, r), connected) ↦ elim (Bool-cases answer) [
        | inl joined ↦ elim (Option-cases (start server r)) [
          | inl bad ↦ absurd (ground arith)
          | inr (r', started) ↦ ground arith
        ]
        | inr refused ↦
            connect_xserver-keeps servers name (record p { recorder = r }) q later (ground arith)
      ]
    ]

-- The threads after the start.
abbrev pub threads_of : (in_background : Bool) → List Thread
threads_of true = main_thread ∷ process_monitor ∷ []
threads_of false = main_thread ∷ committer ∷ process_monitor ∷ []

-- A start that goes on to its loop.
Launch-cases : {A : Type 0} (r : Launch A) → ((a : A) × (r ≡ ok a)) ⊎ ((a : A) → r ≢ ok a)
Launch-cases (ok a) = inl (a, refl)
Launch-cases threw = inr (λ a e. cc)
Launch-cases crashed = inr (λ a e. cc)
Launch-cases waits = inr (λ a e. cc)
Launch-cases (exits n) = inr (λ a e. cc)

pub bind_ok :
    {A B : Type 0} (r : Launch A) (f : A → Launch B) (b : B)
    → (r >>= f) ≡ ok b
    → (a : A) × (r ≡ ok a) × (f a ≡ ok b)
bind_ok (ok a) f b e = (a, refl, e)
bind_ok threw f b e = cc
bind_ok crashed f b e = cc
bind_ok waits f b e = cc
bind_ok (exits n) f b e = cc

constructed_ok : (r : Read Program) (p : Program) → constructed r ≡ ok p → r ≡ Config.ok p
constructed_ok (Config.ok p') p e = ground arith
constructed_ok Config.threw p e = cc
constructed_ok Config.crashed p e = cc

mode_lem : (nb : Bool) → (if nb then false else true) ≡ not nb
mode_lem true = refl
mode_lem false = refl

-- The threads of a new program, once `run` has started.
new_threads :
    (mode : Bool) (p : Program)
    → p.threads ≡ main_thread ∷ committer ∷ []
    → (if mode then main_thread ∷ [] else p.threads) ++ (process_monitor ∷ []) ≡ threads_of mode
new_threads true p e = refl
new_threads false p e = ap (λ ts. ts ++ (process_monitor ∷ [])) e

module _ (host : Host) where
  daemonize-threads :
      (p q : Program) (answer : Bool)
      → daemonize host p ≡ ok (answer, q)
      → answer ≡ true
      → (q.threads ≡ main_thread ∷ [])
        × (q.configuration ≡ p.configuration)
        × (q.x_connected ≡ p.x_connected)
  unfolding daemonize
  daemonize-threads p q answer e h = go host.fork refl
    where
      go :
          (f : Fork)
          → host.fork ≡ f
          → (q.threads ≡ main_thread ∷ [])
            × (q.configuration ≡ p.configuration)
            × (q.x_connected ≡ p.x_connected)
      go failed is = ground arith
      go parent is = ground arith
      go child is = ground arith

  run_connected-threads :
      (p q : Program)
      → run_connected host p ≡ ok q
      → q.threads ≡ p.threads ++ (process_monitor ∷ [])
  unfolding run_connected
  run_connected-threads p q e = elim (Bool-cases p.x_connected) [
    | inl already ↦ ground arith
    | inr fresh ↦
        let ((q', later), connected, same) =
          bind_ok (connect_xserver host.servers (text ":0") p) (λ r. ok (monitored r.0)) q
            (sym (if_of_false _ fresh) ∙ e) in
        let (threads, _, _) = connect_xserver-keeps host.servers (text ":0") p q' later connected in
        ground arith
  ]

  run_start-threads :
      (p q : Program) (as_daemon : Bool)
      → p.configuration.options.daemon_mode ≡ some as_daemon
      → run_start host p ≡ ok q
      → q.threads ≡ (if as_daemon then main_thread ∷ [] else p.threads) ++ (process_monitor ∷ [])
  unfolding run_start
  run_start-threads p q false mode e = run_connected-threads p q (rw (mode, run_start) at e)
  run_start-threads p q true mode e =
      let ((answer, p'), forked, went) =
        bind_ok (daemonize host p) (λ r. if r.0 then run_connected host r.1 else threw) q
          (rw (mode, run_start) at e) in
      elim (Bool-cases answer) [
        | inr undone ↦ absurd (ground arith)
        | inl done ↦
            let (threads, _, _) = daemonize-threads p p' answer forked done in
            run_connected-threads p' q (rw done at went)
            ∙ ap (λ ts. ts ++ (process_monitor ∷ [])) threads
      ]

-- What main has done where it reaches its loop: the constructor, a connection if a display was
-- given, and `run`.
pub main_run :
    (system : System) (recorder : Recorder) (descriptors : Descriptors) (host : Host)
    (arguments : Arguments) (q : Program)
    → main system recorder descriptors host arguments ≡ ok q
    → (p : Program) × IsNew system recorder descriptors (not arguments.nb) p
      × ((run_start host p ≡ ok q)
          ⊎ ((name : Text) × (p' : Program) × (later : List Server) × (connect_xserver host.servers
                  name p
                ≡ ok (p', later))
              × (run_start (record host { servers = later }) p' ≡ ok q)))
unfolding main
main_run system recorder descriptors host arguments q e = elim (Bool-cases arguments.help) [
  | inl helped ↦ absurd (ground arith)
  | inr launched ↦
      let mode = if arguments.nb then false else true in
      let (p, made, went) =
        bind_ok (constructed (new_daemon system recorder descriptors mode)) _ q
          (sym (if_of_false _ launched) ∙ e) in
      let new = new_daemon-IsNew system recorder descriptors mode p (constructed_ok _ p made) in
      (
        p,
        subst (λ (m : Bool). IsNew system recorder descriptors m p) (mode_lem arguments.nb) new,
        elim (Option-cases arguments.display) [
          | inl default ↦ inl (rw default at went)
          | inr (name, given) ↦
              let ((p', later), connected, went') =
                bind_ok (connect_xserver host.servers name p) _ q (rw given at went) in
              inr (name, p', later, connected, went')
        ],
      )
]

-- Where main reaches its loop, the threads are the main one, the committer and the process monitor
-- with the option nb, and the main one and the process monitor without it.
pub main-threads :
    (system : System) (recorder : Recorder) (descriptors : Descriptors) (host : Host)
    (arguments : Arguments) (q : Program)
    → main system recorder descriptors host arguments ≡ ok q
    → q.threads ≡ threads_of (not arguments.nb)
main-threads system recorder descriptors host arguments q e =
    let (p, (threads, is, _), ran) = main_run system recorder descriptors host arguments q e in
    let mode = not arguments.nb in
    elim ran [
      | inl went ↦ run_start-threads host p q mode is went ∙ new_threads mode p threads
      | inr (name, p', later, connected, went) ↦
          let (same, kept, _) = connect_xserver-keeps host.servers name p p' later connected in
          run_start-threads (record host { servers = later }) p' q mode
            (ap (λ c. c.options.daemon_mode) kept ∙ is) went
          ∙ new_threads mode p' (same ∙ threads)
    ]
