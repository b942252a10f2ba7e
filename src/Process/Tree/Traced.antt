-- ===== src/Process/Tree/Traced.antt =====
-- Each edge of the tree that is built comes from a process of the map.
use keyfrog.Base.{
  ℕ, ℤ, pos, ◌<◌, ◌≡◌, refl, sym, ◌∙◌, inl, inr, false, List, [], none, some, arith, Option-cases,
  Bool-cases, eq_ℤ, eq_ℤ_iff, ==_iff, ◌==◌, At, subst,
}
use keyfrog.Base.Key.{int_key}
use keyfrog.Base.Map.{find, insert, find-insert}
use keyfrog.Process.{Properties, ProcessMap}
use keyfrog.Process.Graph.{Bgl, BglLaws}
use keyfrog.Process.Tree.{Tree, connect}
use keyfrog.Process.Tree.Build.{grown}
use keyfrog.Process.Tree.Ordered.{attached}
use keyfrog.Process.Tree.Faithful.{IsFaithful, find-insert_absent, grown-num, grown-old}
use keyfrog.Process.Tree.Rising.{At-append_cases}

module _ (b : Bgl) (laws : BglLaws b) (procs : ProcessMap) where
  -- The process of the edge, and its parent.
  abbrev pub Origin : Tree b → ℕ → ℕ → Type 0
  Origin t u w =
      (k : ℤ) × (p : Properties) × (find k t.ids ≡ some w)
      × (find k procs ≡ some p)
      × (eq_ℤ (pos 0) p.pid ≡ false)
      × (find p.ppid t.ids ≡ some u)

  -- Every edge has one, and no two pids have the same vertex; but for the first vertex, at which pids
  -- stand that are no process.
  pub record IsTraced (t : Tree b) : Type 0 where
    pub origin :
        (u w : ℕ) → u < b.num_vertices t.graph → 0 < u → At w (b.out_edges t.graph u) → Origin t u w
    pub single : (i j : ℤ) (v : ℕ) → find i t.ids ≡ some v → find j t.ids ≡ some v → 0 < v → i ≡ j

  pub grown-IsTraced :
      (pid : ℤ) (p : Properties) (t : Tree b) (earlier : List ℤ)
      → find pid t.ids ≡ none
      → IsFaithful b laws procs t earlier
      → IsTraced t
      → IsTraced (grown b pid p t)
  grown-IsTraced pid p t earlier absent f h =
      let n = b.num_vertices t.graph in
      let size = grown-num b laws procs pid p t in
      record {
        origin = λ u w hu h0 m. elim (Bool-cases (u == n)) [
          | inl new ↦
              let none_out : b.out_edges (grown b pid p t).graph u ≡ [] =
                laws.out_edges-set_properties n p (b.add_vertex t.graph) u
                ∙ laws.out_edges-add_vertex t.graph u (omega (arith, hu, size))
                ∙ rw new refl in
              elim (subst (At w) none_out m) [ ]
          | inr old ↦
              let lower : u < n = ground (arith, size) in
              let (_, edges) = grown-old b laws procs pid p t u lower in
              let (k, q, at_w, known, proper, at_u) =
                h.origin u w lower h0 (subst (At w) edges m) in
              (
                k,
                q,
                find-insert_absent pid k n w t.ids absent at_w,
                known,
                proper,
                find-insert_absent pid q.ppid n u t.ids absent at_u,
              )
        ];
        single = λ i j v at_i at_j h0. elim (Bool-cases (eq_ℤ pid i)) [
          | inl same ↦ elim (Bool-cases (eq_ℤ pid j)) [
            | inl same' ↦ sym ((eq_ℤ_iff pid i).0 same) ∙ (eq_ℤ_iff pid j).0 same'
            | inr apart ↦
                let below = f.inside j v (ground (arith, find-insert pid j n t.ids)) in
                absurd (ground (arith, find-insert pid i n t.ids, below))
          ]
          | inr apart ↦ elim (Bool-cases (eq_ℤ pid j)) [
            | inl same ↦
                let below = f.inside i v (ground (arith, find-insert pid i n t.ids)) in
                absurd (ground (arith, find-insert pid j n t.ids, below))
            | inr apart' ↦
                h.single i j v (ground (arith, find-insert pid i n t.ids))
                  (ground (arith, find-insert pid j n t.ids)) h0
          ]
        ];
      }

  edge-IsTraced :
      (u v : ℕ) (t : Tree b)
      → u < b.num_vertices t.graph
      → v < b.num_vertices t.graph
      → (0 < u → Origin t u v)
      → IsTraced t
      → IsTraced (record t { graph = b.add_edge u v t.graph })
  edge-IsTraced u v t hu hv from h =
      let size = laws.num-add_edge u v t.graph hu hv in
      record {
        origin = λ x y hx h0 m.
            let lower : x < b.num_vertices t.graph = omega (arith, hx, size) in
            let m' = subst (At y) (laws.out_edges-add_edge u v t.graph x hu hv) m in
            elim (Bool-cases (u == x)) [
              | inr apart ↦ h.origin x y lower h0 (rw apart at m')
              | inl same ↦ elim (At-append_cases y v (b.out_edges t.graph x) (rw same at m')) [
                | inl old ↦ h.origin x y lower h0 old
                | inr new ↦
                    let is : u ≡ x = (==_iff u x).0 same in
                    subst (λ i. Origin t i y) is
                      (subst (Origin t u) (sym new) (from (subst (λ i. 0 < i) (sym is) h0)))
              ]
            ];
        single = h.single;
      }

  missing-IsTraced :
      (pid : ℤ) (t : Tree b)
      → find pid t.ids ≡ none
      → IsTraced t
      → IsTraced (record t { ids = insert pid 0 t.ids })
  missing-IsTraced pid t absent h = record {
    origin = λ u w hu h0 m.
        let (k, q, at_w, known, proper, at_u) = h.origin u w hu h0 m in
        (
          k,
          q,
          find-insert_absent pid k 0 w t.ids absent at_w,
          known,
          proper,
          find-insert_absent pid q.ppid 0 u t.ids absent at_u,
        );
    single = λ i j v at_i at_j h0.
        h.single i j v (ground (arith, find-insert pid i 0 t.ids))
          (ground (arith, find-insert pid j 0 t.ids)) h0;
  }

  -- Behind a new vertex.
  pub attached-IsTraced :
      (n : ℕ) (pid : ℤ) (p : Properties) (t : Tree b) (earlier : List ℤ)
      → find pid procs ≡ some p
      → find pid t.ids ≡ some n
      → IsFaithful b laws procs t earlier
      → IsTraced t
      → IsTraced (attached b laws procs n p t)
  unfolding connect
  attached-IsTraced n pid p t earlier in_map found f h =
      let hn = f.inside pid n found in
      elim (Bool-cases (eq_ℤ (pos 0) p.pid)) [
        | inl root ↦ rw root h
        | inr proper ↦ elim (Option-cases (find p.ppid t.ids)) [
          | inr (u, present) ↦
              rw (proper, connect, present)
                (edge-IsTraced u n t (f.inside p.ppid u present) hn
                  (λ _. (pid, p, found, in_map, proper, present)) h)
          | inl absent ↦
              rw (proper, connect, absent)
                (edge-IsTraced 0 n (record t { ids = insert p.ppid 0 t.ids }) (omega (arith, hn)) hn
                  (λ zero_below. absurd (omega (arith, zero_below)))
                  (missing-IsTraced p.ppid t absent h))
        ]
      ]
