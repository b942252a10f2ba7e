-- ===== src/Process/Tree/Rising.antt =====
-- The edges of the tree that is built lead from older to newer vertices.
use keyfrog.Base.{
  ◌≢◌, ℕ, zero, suc, ℤ, pos, ◌<◌, ◌≤◌, ◌+◌, ◌≡◌, ◌⊎◌, ⊎_elim, refl, sym, ap, ◌∙◌, inl, inr, false,
  List, [], ◌∷◌, ◌++◌, none, some, arith, Option-cases, Bool-cases, eq_ℤ, eq_ℤ_iff, ==_iff, ◌==◌,
  At, here, there, subst,
}
use keyfrog.Base.Key.{int_key}
use keyfrog.Base.Map.{find, insert, find-insert}
use keyfrog.Process.{Properties, ProcessMap}
use keyfrog.Process.Graph.{Bgl, BglLaws}
use keyfrog.Process.Tree.{fetch_descendants, Tree, ProcSet, connect, fetch_descendants_sub}
use keyfrog.Process.Tree.Build.{grown}
use keyfrog.Process.Tree.Reach.{visit_edges_returns}
use keyfrog.Process.Tree.Ordered.{attached}
use keyfrog.Process.Tree.Faithful.{grown-num, grown-old}

pub At-append_cases : (x y : ℕ) (xs : List ℕ) → At x (xs ++ (y ∷ [])) → At x xs ⊎ (x ≡ y)
At-append_cases x y [] here = inr refl
At-append_cases x y [] (there m) = elim m [ ]
At-append_cases x y (z ∷ xs) here = inl here
At-append_cases x y (z ∷ xs) (there m) = ⊎_elim (λ n. inl (there n)) inr (At-append_cases x y xs m)

module _ (b : Bgl) (laws : BglLaws b) (procs : ProcessMap) (first : ℤ) where
  -- An edge leads to a newer vertex, but for one from the first vertex to itself.
  abbrev Rises : ℕ → ℕ → Type 0
  Rises u w = (u < w) ⊎ ((u ≡ 0) × (w ≡ 0))

  -- All edges do, and no process but the first has the first vertex.
  pub record IsRising (t : Tree b) : Type 0 where
    pub rising :
        (u w : ℕ)
        → u < b.num_vertices t.graph
        → At w (b.out_edges t.graph u)
        → Rises u w × (w < b.num_vertices t.graph)
    pub rooted :
        (k : ℤ) (p : Properties) → find k t.ids ≡ some 0 → find k procs ≡ some p → k ≡ first

  pub grown-IsRising :
      (pid : ℤ) (p : Properties) (t : Tree b)
      → (0 < b.num_vertices t.graph) ⊎ (pid ≡ first)
      → IsRising t
      → IsRising (grown b pid p t)
  grown-IsRising pid p t start h =
      let n = b.num_vertices t.graph in
      let size = grown-num b laws procs pid p t in
      record {
        rising = λ u w hu m. elim (Bool-cases (u == n)) [
          | inl new ↦
              let none_out : b.out_edges (grown b pid p t).graph u ≡ [] =
                laws.out_edges-set_properties n p (b.add_vertex t.graph) u
                ∙ laws.out_edges-add_vertex t.graph u (omega (arith, hu, size))
                ∙ rw new refl in
              elim (subst (At w) none_out m) [ ]
          | inr old ↦
              let lower : u < n = ground (arith, size) in
              let (_, edges) = grown-old b laws procs pid p t u lower in
              let (r, hw) = h.rising u w lower (subst (At w) edges m) in
              (r, omega (arith, hw, size))
        ];
        rooted = λ k q e known. elim (Bool-cases (eq_ℤ pid k)) [
          | inl same ↦
              ⊎_elim (λ some_vertex. ground (arith, find-insert pid k n t.ids))
                (λ is. sym ((eq_ℤ_iff pid k).0 same) ∙ is) start
          | inr apart ↦ h.rooted k q (ground (arith, find-insert pid k n t.ids)) known
        ];
      }

  edge-IsRising :
      (u v : ℕ) (t : Tree b)
      → u < b.num_vertices t.graph
      → v < b.num_vertices t.graph
      → Rises u v
      → IsRising t
      → IsRising (record t { graph = b.add_edge u v t.graph })
  edge-IsRising u v t hu hv rises h =
      let size = laws.num-add_edge u v t.graph hu hv in
      record {
        rising = λ x y hx m.
            let lower : x < b.num_vertices t.graph = omega (arith, hx, size) in
            let m' = subst (At y) (laws.out_edges-add_edge u v t.graph x hu hv) m in
            elim (Bool-cases (u == x)) [
              | inr apart ↦
                  let (r, hy) = h.rising x y lower (rw apart at m') in (r, omega (arith, hy, size))
              | inl same ↦ elim (At-append_cases y v (b.out_edges t.graph x) (rw same at m')) [
                | inl old ↦ let (r, hy) = h.rising x y lower old in (r, omega (arith, hy, size))
                | inr new ↦
                    let is : u ≡ x = (==_iff u x).0 same in
                    (
                      subst (λ i. Rises i y) is (subst (Rises u) (sym new) rises),
                      omega (arith, hv, size, new),
                    )
              ]
            ];
        rooted = h.rooted;
      }

  missing-IsRising :
      (pid : ℤ) (t : Tree b)
      → find pid procs ≡ none
      → IsRising t
      → IsRising (record t { ids = insert pid 0 t.ids })
  missing-IsRising pid t gone h = record {
    rising = h.rising;
    rooted = λ k q e known. elim (Bool-cases (eq_ℤ pid k)) [
      | inl same ↦ cc (gone, known, (eq_ℤ_iff pid k).0 same)
      | inr apart ↦ h.rooted k q (ground (arith, find-insert pid k 0 t.ids)) known
    ];
  }

  -- Behind a new vertex, whose parent came earlier or is no process.
  pub attached-IsRising :
      (n : ℕ) (p : Properties) (t : Tree b)
      → n < b.num_vertices t.graph
      → (find p.ppid t.ids ≡ none → find p.ppid procs ≡ none)
      → ((u : ℕ) → eq_ℤ (pos 0) p.pid ≡ false → find p.ppid t.ids ≡ some u → u < n)
      → IsRising t
      → IsRising (attached b laws procs n p t)
  unfolding connect
  attached-IsRising n p t hn orphan older h = elim (Bool-cases (eq_ℤ (pos 0) p.pid)) [
    | inl root ↦ rw root h
    | inr proper ↦ elim (Option-cases (find p.ppid t.ids)) [
      | inr (u, present) ↦
          let below = older u proper present in
          rw (proper, connect, present)
            (edge-IsRising u n t (omega (arith, below, hn)) hn (inl below) h)
      | inl absent ↦
          let rises : Rises 0 n = elim (Bool-cases (n == 0)) [
            | inl zeroth ↦ inr (refl, (==_iff n 0).0 zeroth)
            | inr later ↦ inl (ground arith)
          ] in
          rw (proper, connect, absent)
            (edge-IsRising 0 n (record t { ids = insert p.ppid 0 t.ids }) (omega (arith, hn)) hn
              rises (missing-IsRising p.ppid t (orphan absent) h))
    ]
  ]

  -- The walks from any vertex but the first end.
  rising_returns :
      (t : Tree b) (fuel u : ℕ) (old : ProcSet)
      → IsRising t
      → 0 < u
      → u < b.num_vertices t.graph
      → b.num_vertices t.graph ≤ u + fuel
      → (new : ProcSet) × (fetch_descendants_sub b fuel t.graph u old ≡ some new)
  unfolding fetch_descendants_sub
  rising_returns t zero u old h h0 hu fuels = absurd (omega (arith, hu, fuels))
  rising_returns t (suc fuel) u old h h0 hu fuels =
      visit_edges_returns b t.graph (fetch_descendants_sub b fuel t.graph) (b.out_edges t.graph u)
        (λ w m old'.
          let (r, hw) = h.rising u w hu m in
          let up : u < w = ⊎_elim (λ l. l) (λ z. absurd (omega (arith, z.0, h0))) r in
          rising_returns t fuel w old' h (omega (arith, up)) hw (omega (arith, up, fuels)))
        old

  pub fetch_descendants-IsRising :
      (t : Tree b) (fuel : ℕ) (a : ℤ) (u : ℕ) (p : Properties)
      → IsRising t
      → b.num_vertices t.graph ≤ fuel
      → find a t.ids ≡ some u
      → find a procs ≡ some p
      → a ≢ first
      → u < b.num_vertices t.graph
      → (new : ProcSet) × (fetch_descendants b fuel a t ≡ some new)
  unfolding fetch_descendants
  fetch_descendants-IsRising t fuel a u p h enough found known other hu =
      elim (Bool-cases (u == 0)) [
        | inl zeroth ↦ absurd (other (h.rooted a p (found ∙ ap some ((==_iff u 0).0 zeroth)) known))
        | inr later ↦
            rw (fetch_descendants, found)
              (rising_returns t fuel u [] h (ground arith) hu (omega (arith, enough)))
      ]
