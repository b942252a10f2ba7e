-- ===== src/Process/Manager.antt =====
-- src/ProcessManager.h: the interface to the processes of a system, as the process monitor uses it.
pub mod Systems
use keyfrog.Base.{ℕ, ℤ, ◌≡◌, Bool, Option, some}
use keyfrog.Base.Text.{Text}
use keyfrog.Process.{Properties, ProcessMap}
use keyfrog.Process.Graph.{Bgl}
use keyfrog.Process.Linux.{Known}
use keyfrog.Process.Tree.{Tree, clear, Outcome, add_connect_processes}

-- The virtual methods of `ProcessManager`, over what the system shows during a call. `none` is a
-- call that does not come back, or that reads where nothing is.
pub record ProcessManager (b : Bgl) : Type 1 where
  pub Sight : Type 0
  pub create_proc_tree : ℕ → Sight → Tree b → Option (Outcome b)
  pub process_exists : Sight → Text → Bool
  pub set_process_properties : Sight → ℤ → Known → Properties → Bool × Properties

-- What a manager promises: the tree is built anew of the processes that the system shows.
pub record ProcessManagerLaws (b : Bgl) (manager : ProcessManager b) : Type 1 where
  pub Shows : manager.Sight → ProcessMap → Type 0
  pub builds :
      (sight : manager.Sight) (procs : ProcessMap) (fuel : ℕ) (tree : Tree b)
      → Shows sight procs
      → manager.create_proc_tree fuel sight tree
        ≡ some (add_connect_processes b fuel procs (clear b))
