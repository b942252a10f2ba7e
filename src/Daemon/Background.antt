-- ===== src/Daemon/Background.antt =====
-- A daemon in the background has lost the committer's thread: what it counts reaches no database.
use keyfrog.Base.{◌≡◌, refl, ap, ◌∙◌, inl, inr, false, not, List, [], ◌∷◌, some, All, At, subst}
use keyfrog.Storage.{Storage}
use keyfrog.Storage.Manager.{Boost, Manager, press}
use keyfrog.Storage.Manager.Conserve.{Action, pressed, commits, run}
use keyfrog.Base.Set.{At-cases}
use keyfrog.Monitor.Connect.{Recorder}
use keyfrog.Daemon.Start.{Thread, main_thread, committer, process_monitor, System, Program}
use keyfrog.Daemon.Launch.{ok, Host, Descriptors, Arguments, main}
use keyfrog.Daemon.Threads.{threads_of, main-threads}

-- A thread of the process can do the action: the main thread presses, and the committer commits.
abbrev pub CanRun : List Thread → Action → Type 0
CanRun threads (pressed g t n) = At main_thread threads
CanRun threads commits = At committer threads

no_committer : At committer (main_thread ∷ process_monitor ∷ []) → ⊥
no_committer m = elim (At-cases m) [
  | inl e ↦ cc e
  | inr later ↦ elim (At-cases later) [ inl e ↦ cc e | inr none_left ↦ elim none_left [ ] ]
]

-- Presses alone reach no further than the cache.
run-CanRun :
    (boost : Boost) (storage : Storage) (actions : List Action) (m : Manager boost storage)
    → All (CanRun (main_thread ∷ process_monitor ∷ [])) actions
    → (m' : Manager boost storage) × (run boost storage actions m ≡ some m')
      × (m'.backend ≡ m.backend)
unfolding run press
run-CanRun boost storage [] m h = (m, refl, refl)
run-CanRun boost storage (pressed g t n ∷ rest) m h =
    run-CanRun boost storage rest (press boost storage g t n m) h.1
run-CanRun boost storage (commits ∷ rest) m h = absurd (no_committer h.0)

-- Where main reaches its loop without the option nb, a schedule of key presses and of committer
-- steps that the threads of the process can run leaves the storage backend as it was.
pub main_unrecorded :
    (system : System) (recorder : Recorder) (descriptors : Descriptors) (host : Host)
    (arguments : Arguments) (q : Program) (boost : Boost) (storage : Storage)
    (actions : List Action) (m : Manager boost storage)
    → main system recorder descriptors host arguments ≡ ok q
    → arguments.nb ≡ false
    → All (CanRun q.threads) actions
    → (m' : Manager boost storage) × (run boost storage actions m ≡ some m')
      × (m'.backend ≡ m.backend)
main_unrecorded system recorder descriptors host arguments q boost storage actions m e nb can =
    let threads : q.threads ≡ main_thread ∷ process_monitor ∷ [] =
      main-threads system recorder descriptors host arguments q e
      ∙ ap (λ b. threads_of (not b)) nb in
    run-CanRun boost storage actions m
      (subst (λ (ts : List Thread). All (CanRun ts) actions) threads can)
