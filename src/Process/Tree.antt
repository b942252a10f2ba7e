-- ===== src/Process/Tree.antt =====
-- src/ProcessTree.h and src/ProcessTree.cpp. The recursive mutex makes each method one step; the
-- printed dump is left out.
pub mod Reach
pub mod Build
pub mod Orphan
pub mod Ordered
pub mod Faithful
pub mod Rising
pub mod Traced
pub mod Family
pub mod Descend
use keyfrog.Base.{
  ℕ, zero, suc, ℤ, pos, ◌≡◌, Bool, true, false, List, [], ◌∷◌, Option, none, some, eq_ℤ,
  if◌then◌else◌,
}
use keyfrog.Base.Text.{Text}
use keyfrog.Base.Key.{int_key, pair_key}
use keyfrog.Base.Map.{find, insert}
use keyfrog.Base.Set.{set_insert}
use keyfrog.Process.{Properties, ProcessMap}
use keyfrog.Process.Graph.{Bgl}

infixl 5 ◌>>=◌
abbrev ◌>>=◌ {ℓ κ} : {A : Type ℓ} {B : Type κ} → Option A → (A → Option B) → Option B
none >>= f = none
some a >>= f = f a

-- `set< pair<pid_t, string> >`
abbrev pub ProcSet : Type 0
ProcSet = List (ℤ × Text)

module _ (b : Bgl) where
  -- `m_procTreeGraph` and `m_pidToIdMap`
  pub record Tree : Type 0 where
    pub graph : b.Graph
    pub ids : List (ℤ × ℕ)

  -- the constructor, and `clear()`
  abbrev pub clear : Tree
  clear = record { graph = b.empty; ids = [] }

  pub count : Tree → ℕ
  count t = b.num_vertices t.graph

  -- How `addProcess` ends: it returns true with `newProc` set, or true with `newProc` left alone
  -- since the pid has a vertex already, or false.
  pub data Added : Type 0 where
    created : ℕ → Tree → Added
    existing missing : Added

  unfoldable pub add_process : ℤ → ProcessMap → Tree → Added
  add_process pid procs t = elim (find pid t.ids) [
    | some _ ↦ existing
    | none ↦ elim (find pid procs) [
      | none ↦ missing
      | some properties ↦
          let new_proc = b.num_vertices t.graph in
          created new_proc (record t {
            graph = b.set_properties new_proc properties (b.add_vertex t.graph);
            ids = insert pid new_proc t.ids;
          })
    ]
  ]

  -- How `addConnectProcesses` ends. `undefined` is the read of `m_procTreeGraph[newProc]` where
  -- `newProc` was never set.
  pub data Outcome : Type 0 where
    returned : Bool → Tree → Outcome
    undefined out_of_fuel : Outcome

  -- `m_pidToIdMap[ppid]`, which puts 0 under a pid that is not there, and `add_edge`
  unfoldable pub connect : ℤ → ℕ → Tree → Tree
  connect ppid new_proc t = elim (find ppid t.ids) [
    | some u ↦ record t { graph = b.add_edge u new_proc t.graph }
    | none ↦ record t { graph = b.add_edge 0 new_proc t.graph; ids = insert ppid 0 t.ids }
  ]

  -- The end of `addConnectProcesses`, behind the recursive call for the parent.
  abbrev pub connect_after : ℤ → ℕ → Outcome → Outcome
  connect_after ppid new_proc (returned _ t) = returned true (connect ppid new_proc t)
  connect_after ppid new_proc undefined = undefined
  connect_after ppid new_proc out_of_fuel = out_of_fuel

  -- `addConnectProcesses(pid, procMap)`
  unfoldable pub add_connect_process : ℕ → ℤ → ProcessMap → Tree → Outcome
  add_connect_process zero pid procs t = out_of_fuel
  add_connect_process (suc fuel) pid procs t = elim (add_process pid procs t) [
    | missing ↦ returned false t
    | existing ↦ undefined
    | created new_proc t' ↦
        let properties = b.properties t'.graph new_proc in
        let ppid = properties.ppid in
        let parent = add_connect_process fuel ppid procs t' in
        if eq_ℤ (pos 0) properties.pid
        then returned true t'
        else connect_after ppid new_proc
            (elim (find ppid t'.ids) [ some _ ↦ returned true t' | none ↦ parent ])
  ]

  -- `addConnectProcesses(pidStr, procMap)`; `cast` is `boost::lexical_cast`.
  unfoldable pub add_connect_process_str :
      (cast : Text → Option ℤ) → ℕ → Text → ProcessMap → Tree → Outcome
  unfolding add_connect_process
  add_connect_process_str cast fuel pid_str procs t = elim (cast pid_str) [
    | none ↦ returned false t
    | some pid ↦ add_connect_process fuel pid procs t
  ]

  -- The loop of `addConnectProcesses(procMap)` from a pid on. `&&` makes no call after a failure.
  unfoldable pub add_each : ℕ → ProcessMap → ProcessMap → Bool → Tree → Outcome
  add_each fuel procs [] retval t = returned retval t
  add_each fuel procs ((pid, _) ∷ rest) false t = add_each fuel procs rest false t
  add_each fuel procs ((pid, _) ∷ rest) true t = elim (add_connect_process fuel pid procs t) [
    | returned retval t' ↦ add_each fuel procs rest retval t'
    | undefined ↦ undefined
    | out_of_fuel ↦ out_of_fuel
  ]

  -- `addConnectProcesses(procMap)`
  unfoldable pub add_connect_processes : ℕ → ProcessMap → Tree → Outcome
  unfolding add_each
  add_connect_processes fuel procs t = add_each fuel procs procs true t

  -- The loop of `fetchDescendants_sub` over out edges; `sub` is the call for a child.
  unfoldable pub visit_edges :
      (ℕ → ProcSet → Option ProcSet) → b.Graph → List ℕ → ProcSet → Option ProcSet
  visit_edges sub g [] procs = some procs
  visit_edges sub g (sub_proc ∷ rest) procs = do
    let element : ℤ × Text = ((b.properties g sub_proc).pid, (b.properties g sub_proc).name)
    deeper ← sub sub_proc (set_insert element procs)
    visit_edges sub g rest deeper

  unfoldable pub fetch_descendants_sub : ℕ → b.Graph → ℕ → ProcSet → Option ProcSet
  unfolding visit_edges
  fetch_descendants_sub zero g proc_id procs = none
  fetch_descendants_sub (suc fuel) g proc_id procs =
      visit_edges (fetch_descendants_sub fuel g) g (b.out_edges g proc_id) procs

  -- `fetchDescendants(pid)`: the set is empty for a pid that is not in the tree.
  unfoldable pub fetch_descendants : ℕ → ℤ → Tree → Option ProcSet
  unfolding fetch_descendants_sub
  fetch_descendants fuel pid t = elim (find pid t.ids) [
    | none ↦ some []
    | some proc_id ↦ fetch_descendants_sub fuel t.graph proc_id []
  ]

  -- `fetchName(pid)`
  unfoldable pub fetch_name : ℤ → Tree → Text
  fetch_name pid t = elim (find pid t.ids) [
    | none ↦ []
    | some proc_id ↦ (b.properties t.graph proc_id).name
  ]
