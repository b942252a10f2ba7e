-- ===== src/Daemon/Recording.antt =====
-- Where the daemon has started in the foreground, its recorder delivers.
use keyfrog.Base.{
  if_of_false, ℕ, ◌≡◌, sym, ap, ◌∙◌, inl, inr, true, false, not, ◌||◌, ◌==◌, List, [], ◌∷◌, some,
  arith, Bool-cases, Option-cases, subst,
}
use keyfrog.Base.Text.{Text, text}
use keyfrog.Monitor.{key_press, destroy_notify}
use keyfrog.Monitor.Connect.{Server, Recorder, connect, start}
use keyfrog.Monitor.Recorded.{delivers, delivers-connect}
use keyfrog.Daemon.Start.{System, Program}
use keyfrog.Daemon.Launch.{
  monitored, run_connected, ok, Host, Descriptors, Arguments, connect_xserver, run_start, main,
}
use keyfrog.Daemon.Threads.{connect_xserver-keeps, bind_ok, main_run}

-- Recording is enabled, of key presses and of the ends of windows and of no other type.
abbrev pub IsRecording : Recorder → Type 0
IsRecording r =
    (r.enabled ≡ true)
    × ((type : ℕ) → delivers r.rec_ranges type ≡ (type == key_press || type == destroy_notify))

connect_xserver-IsRecording :
    (servers : List Server) (name : Text) (p q : Program) (later : List Server)
    → connect_xserver servers name p ≡ ok (q, later)
    → IsRecording q.recorder
unfolding connect_xserver start
connect_xserver-IsRecording [] name p q later e = absurd (ground arith)
connect_xserver-IsRecording (server ∷ servers) name p q later e =
    elim (Option-cases (connect server name p.recorder)) [
      | inl bad ↦ absurd (ground arith)
      | inr ((answer, r), connected) ↦ elim (Bool-cases answer) [
        | inl joined ↦ elim (Option-cases (start server r)) [
          | inl bad ↦ absurd (ground arith)
          | inr (r', started) ↦
              let told : connect server name p.recorder ≡ some (true, r) =
                connected ∙ ap (λ a. some (a, r)) joined in
              let (_, _, (_, _, types, _)) = delivers-connect server name p.recorder r true told in
              let ranges : q.recorder.rec_ranges ≡ r.rec_ranges = ground arith in
              (ground arith, λ type. ap (λ rs. delivers rs type) ranges ∙ types type)
        ]
        | inr refused ↦
            connect_xserver-IsRecording servers name (record p { recorder = r }) q later
              (ground arith)
      ]
    ]

run_connected-IsRecording :
    (host : Host) (p q : Program)
    → run_connected host p ≡ ok q
    → (p.x_connected ≡ true → IsRecording p.recorder)
    → IsRecording q.recorder
unfolding run_connected
run_connected-IsRecording host p q e h = elim (Bool-cases p.x_connected) [
  | inl already ↦
      let same : q.recorder ≡ p.recorder = ground arith in subst IsRecording (sym same) (h already)
  | inr fresh ↦
      let ((q', later), connected, same) =
        bind_ok (connect_xserver host.servers (text ":0") p) (λ r. ok (monitored r.0)) q
          (sym (if_of_false _ fresh) ∙ e) in
      let kept : q'.recorder ≡ q.recorder = ground arith in
      subst IsRecording kept
        (connect_xserver-IsRecording host.servers (text ":0") p q' later connected)
]

run_start_foreground :
    (host : Host) (p q : Program)
    → p.configuration.options.daemon_mode ≡ some false
    → run_start host p ≡ ok q
    → run_connected host p ≡ ok q
unfolding run_start
run_start_foreground host p q mode e = rw (mode, run_start) at e

-- With the option nb.
pub main-IsRecording :
    (system : System) (recorder : Recorder) (descriptors : Descriptors) (host : Host)
    (arguments : Arguments) (q : Program)
    → main system recorder descriptors host arguments ≡ ok q
    → arguments.nb ≡ true
    → IsRecording q.recorder
main-IsRecording system recorder descriptors host arguments q e nb =
    let (p, (threads, is, new), ran) = main_run system recorder descriptors host arguments q e in
    let mode : p.configuration.options.daemon_mode ≡ some false = is ∙ ap (λ b. some (not b)) nb in
    elim ran [
      | inl went ↦
          run_connected-IsRecording host p q (run_start_foreground host p q mode went)
            (λ connected. cc (new, connected))
      | inr (name, p', later, connected, went) ↦
          let (_, kept, _) = connect_xserver-keeps host.servers name p p' later connected in
          run_connected-IsRecording (record host { servers = later }) p' q
            (run_start_foreground (record host { servers = later }) p' q
              (ap (λ c. c.options.daemon_mode) kept ∙ mode) went)
            (λ _. connect_xserver-IsRecording host.servers name p p' later connected)
    ]
