-- ===== src/Tests/Processes.antt =====
-- Process trees: a chain of three, a loop, a circle of parents, and a process with no parent.
use keyfrog.Base.{
  there, true, ◌≢◌, ℤ, ℕ, zero, suc, subst, sym, pos, ◌≡◌, ◌↔◌, ◌<◌, refl, List, [], ◌∷◌, none,
  some, arith, At, here, inl, inr,
}
use keyfrog.Base.Text.{text}
use keyfrog.Base.Key.{int_key}
use keyfrog.Base.Map.{find}
use keyfrog.Base.Set.{At-cases, set_insert}
use keyfrog.Process.{ProcessMap, Properties, no_properties}
use keyfrog.Process.Tree.{
  clear, add_connect_process, add_connect_processes, returned, out_of_fuel, Tree, ProcSet,
  fetch_descendants,
}
use keyfrog.Process.Tree.Reach.{Below, entry, fetch_descendants_correct, fetch_descendants_returns}
use keyfrog.Process.Tree.Build.{add_connect_processes_ends}
use keyfrog.Process.Tree.Ordered.{IsOrdered}
use keyfrog.Process.Tree.Family.{NoOwnParent}
use keyfrog.Process.Tree.Descend.{Tells, add_connect_processes-Tells}
use keyfrog.Process.Tree.Orphan.{add_connect_process-orphan}
use keyfrog.Tests.Instances.{bgl-laws, bgl}

-- Vertex 0 has the child 1, and 1 the child 2.
abbrev edges : ℕ → List ℕ
edges zero = 1 ∷ []
edges (suc zero) = 2 ∷ []
edges _ = []

abbrev named : ℕ → Properties
named v = record no_properties { pid = pos (suc v); name = text "sh" }

abbrev chain : Tree bgl
chain = record {
  graph = record { size = 3; properties = named; edges = edges };
  ids = (pos 1, 0) ∷ (pos 2, 1) ∷ (pos 3, 2) ∷ [];
}

abbrev below_first : ProcSet
below_first = (pos 2, text "sh") ∷ (pos 3, text "sh") ∷ []

found : find (pos 1) chain.ids ≡ some 0
unfolding find
found = refl

fetched : fetch_descendants bgl 3 (pos 1) chain ≡ some below_first
unfolding fetch_descendants find set_insert
fetched = refl

fetch_descendants_correct_example :
    At (pos 3, text "sh") below_first
    ↔ ((w : ℕ) × Below bgl chain.graph 0 w × ((pos 3, text "sh") ≡ entry bgl chain.graph w))
fetch_descendants_correct_example =
    fetch_descendants_correct bgl 3 (pos 1) chain 0 below_first (pos 3, text "sh") found fetched

abbrev height : ℕ → ℕ
height zero = 2
height (suc zero) = 1
height _ = 0

only : {A : Type 0} {x y : A} → At x (y ∷ []) → x ≡ y
only m = elim (At-cases m) [ inl e ↦ e | inr later ↦ elim later [ ] ]

falls : (u w : ℕ) → At w (edges u) → height w < height u
falls zero w m = subst (λ v. height v < 2) (sym (only m)) (omega arith)
falls (suc zero) w m = subst (λ v. height v < 1) (sym (only m)) (omega arith)
falls (suc (suc u)) w m = elim m [ ]

fetch_descendants_returns_example :
    (procs : ProcSet) × (fetch_descendants bgl 3 (pos 1) chain ≡ some procs)
fetch_descendants_returns_example = fetch_descendants_returns bgl (pos 1) chain 0 height found falls

-- A process that is its own parent.
abbrev loop : Tree bgl
loop = record {
  graph = record { size = 1; properties = named; edges = λ v. 0 ∷ [] };
  ids = (pos 1, 0) ∷ [];
}

found_loop : find (pos 1) loop.ids ≡ some 0
unfolding find
found_loop = refl

-- Two processes that name each other as their parents.
abbrev of_parent : ℤ → ℤ → Properties
of_parent pid ppid = record no_properties { pid = pid; ppid = ppid; ppid_known = true }

abbrev circle : ProcessMap
circle = (pos 5, of_parent (pos 5) (pos 9)) ∷ (pos 9, of_parent (pos 9) (pos 5)) ∷ []

add_connect_processes_ends_example : add_connect_processes bgl 3 circle (clear bgl) ≢ out_of_fuel
add_connect_processes_ends_example = add_connect_processes_ends bgl circle (clear bgl)

-- The first process of Linux, whose parent is not a process.
abbrev init : ProcessMap
init = (pos 1, of_parent (pos 1) (pos 0)) ∷ []

add_connect_process-orphan_example :
    (t : Tree bgl) × (add_connect_process bgl 2 (pos 1) init (clear bgl) ≡ returned true t)
    × (fetch_descendants bgl 1000 (pos 1) t ≡ none)
unfolding find
add_connect_process-orphan_example =
    add_connect_process-orphan bgl bgl-laws init 0 1000 (pos 1) (of_parent (pos 1) (pos 0)) refl
      refl refl

-- The first process of Linux, a child of it, and one whose parent is 0 too.
abbrev family : ProcessMap
family =
    (pos 1, of_parent (pos 1) (pos 0))
    ∷ (pos 2, of_parent (pos 2) (pos 0))
    ∷ (pos 3, of_parent (pos 3) (pos 1))
    ∷ []

family-IsOrdered : IsOrdered family family []
unfolding find
family-IsOrdered = (
  refl,
  (λ m. elim m [ ]),
  inr refl,
  (
    refl,
    (λ m. cc (only m)),
    inr refl,
    (
      refl,
      (λ m. elim (At-cases m) [ inl e ↦ cc e | inr n ↦ cc (only n) ]),
      inl (there (there here)),
      tt,
    ),
  ),
)

family-NoOwnParent : NoOwnParent family
family-NoOwnParent = (refl, (refl, (refl, tt)))

add_connect_processes-Tells_example :
    (t : Tree bgl) × (add_connect_processes bgl 2 family (clear bgl) ≡ returned true t)
    × Tells bgl bgl-laws family t
add_connect_processes-Tells_example =
    add_connect_processes-Tells bgl bgl-laws family 0 family-IsOrdered family-NoOwnParent
