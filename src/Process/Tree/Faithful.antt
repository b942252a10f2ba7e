-- ===== src/Process/Tree/Faithful.antt =====
-- The tree that is built holds each process of the map, with an edge from its parent.
use keyfrog.Base.{
  ℕ, suc, ℤ, pos, ◌<◌, ◌≡◌, refl, sym, ap, ◌∙◌, inl, inr, false, List, [], ◌∷◌, ◌++◌, none, some,
  arith, Bool-cases, eq_ℤ, eq_ℤ_iff, ◌==◌, At, here, there, subst,
}
use keyfrog.Base.Key.{int_key}
use keyfrog.Base.Set.{At-cases}
use keyfrog.Base.Map.{find, insert, find-insert}
use keyfrog.Process.{Properties, ProcessMap}
use keyfrog.Process.Graph.{Bgl, BglLaws}
use keyfrog.Process.Tree.{Tree}
use keyfrog.Process.Tree.Build.{grown}
use keyfrog.Process.Tree.Orphan.{new_properties}

-- A pid that is new leaves the others where they are.
pub find-insert_absent :
    (k j : ℤ) (n v : ℕ) (ids : List (ℤ × ℕ))
    → find k ids ≡ none
    → find j ids ≡ some v
    → find j (insert k n ids) ≡ some v
find-insert_absent k j n v ids absent present = elim (Bool-cases (eq_ℤ k j)) [
  | inl same ↦ cc (absent, present, (eq_ℤ_iff k j).0 same)
  | inr apart ↦ find-insert k j n ids ∙ rw apart present
]

At-append : {x : ℕ} (y : ℕ) (xs : List ℕ) → At x xs → At x (xs ++ (y ∷ []))
At-append y [] m = elim m [ ]
At-append y (x ∷ xs) here = here
At-append y (x ∷ xs) (there m) = there (At-append y xs m)

module _ (b : Bgl) (laws : BglLaws b) (procs : ProcessMap) where
  -- An edge from the vertex of the parent to that of the child.
  abbrev pub Linked : Tree b → ℤ → ℤ → Type 0
  Linked t parent k =
      (u v : ℕ) × (find parent t.ids ≡ some u)
      × (find k t.ids ≡ some v)
      × At v (b.out_edges t.graph u)

  -- Every pid has a vertex of the graph; that of a process has its properties; and the processes so
  -- far, other than 0, have an edge from their parents.
  pub record IsFaithful (t : Tree b) (earlier : List ℤ) : Type 0 where
    pub inside : (k : ℤ) (v : ℕ) → find k t.ids ≡ some v → v < b.num_vertices t.graph
    pub named :
        (k : ℤ) (v : ℕ) (p : Properties)
        → find k t.ids ≡ some v
        → find k procs ≡ some p
        → b.properties t.graph v ≡ p
    pub linked :
        (k : ℤ) (p : Properties)
        → At k earlier
        → find k procs ≡ some p
        → eq_ℤ (pos 0) p.pid ≡ false
        → Linked t p.ppid k

  -- An edge stays behind another.
  At-add_edge :
      (u v x y : ℕ) (t : Tree b)
      → u < b.num_vertices t.graph
      → v < b.num_vertices t.graph
      → At y (b.out_edges t.graph x)
      → At y (b.out_edges (b.add_edge u v t.graph) x)
  At-add_edge u v x y t hu hv m =
      subst (At y) (sym (laws.out_edges-add_edge u v t.graph x hu hv)) (elim (Bool-cases (u == x)) [
        | inl same ↦ rw same (At-append v (b.out_edges t.graph x) m)
        | inr apart ↦ rw apart m
      ])

  pub grown-num :
      (pid : ℤ) (p : Properties) (t : Tree b)
      → b.num_vertices (grown b pid p t).graph ≡ suc (b.num_vertices t.graph)
  grown-num pid p t =
      laws.num-set_properties _ p (b.add_vertex t.graph) ∙ laws.num-add_vertex t.graph

  -- An old vertex is as it was.
  pub grown-old :
      (pid : ℤ) (p : Properties) (t : Tree b) (w : ℕ)
      → w < b.num_vertices t.graph
      → (b.properties (grown b pid p t).graph w ≡ b.properties t.graph w)
        × (b.out_edges (grown b pid p t).graph w ≡ b.out_edges t.graph w)
  grown-old pid p t w h =
      let n = b.num_vertices t.graph in
      let fresh : n < b.num_vertices (b.add_vertex t.graph) =
        omega (arith, laws.num-add_vertex t.graph) in
      let apart : (n == w) ≡ false = ground (arith, h) in
      let apart' : (w == n) ≡ false = ground (arith, h) in
      (
        laws.properties-set_properties n p (b.add_vertex t.graph) w fresh
            ∙ rw apart (laws.properties-add_vertex t.graph w h),
        laws.out_edges-set_properties n p (b.add_vertex t.graph) w
            ∙ laws.out_edges-add_vertex t.graph w (omega (arith, h))
            ∙ rw apart' refl,
      )

  pub grown-IsFaithful :
      (pid : ℤ) (p : Properties) (t : Tree b) (earlier : List ℤ)
      → find pid t.ids ≡ none
      → find pid procs ≡ some p
      → IsFaithful t earlier
      → IsFaithful (grown b pid p t) earlier
  grown-IsFaithful pid p t earlier absent in_map h =
      let n = b.num_vertices t.graph in
      let size = grown-num pid p t in
      record {
        inside = λ k v e. elim (Bool-cases (eq_ℤ pid k)) [
          | inl same ↦ ground (arith, find-insert pid k n t.ids, size)
          | inr apart ↦
              let below = h.inside k v (ground (arith, find-insert pid k n t.ids)) in
              omega (arith, size, below)
        ];
        named = λ k v q e known. elim (Bool-cases (eq_ℤ pid k)) [
          | inl same ↦
              let place : v ≡ n = ground (arith, find-insert pid k n t.ids) in
              let is : pid ≡ k = (eq_ℤ_iff pid k).0 same in
              let one : p ≡ q = cc (in_map, known, is) in
              ap (λ w. b.properties (grown b pid p t).graph w) place
              ∙ new_properties b laws procs pid p t
              ∙ one
          | inr apart ↦
              let old : find k t.ids ≡ some v = ground (arith, find-insert pid k n t.ids) in
              (grown-old pid p t v (h.inside k v old)).0 ∙ h.named k v q old known
        ];
        linked = λ k q m known proper.
            let (u, v, up, down, edge) = h.linked k q m known proper in
            (
              u,
              v,
              find-insert_absent pid q.ppid n u t.ids absent up,
              find-insert_absent pid k n v t.ids absent down,
              subst (At v) (sym (grown-old pid p t u (h.inside q.ppid u up)).1) edge,
            );
      }

  -- An edge more.
  pub edge-IsFaithful :
      (u v : ℕ) (t : Tree b) (earlier : List ℤ)
      → u < b.num_vertices t.graph
      → v < b.num_vertices t.graph
      → IsFaithful t earlier
      → IsFaithful (record t { graph = b.add_edge u v t.graph }) earlier
  edge-IsFaithful u v t earlier hu hv h =
      let size = laws.num-add_edge u v t.graph hu hv in
      record {
        inside = λ k w e. let below = h.inside k w e in omega (arith, size, below);
        named =
            λ k w q e known. laws.properties-add_edge u v t.graph w hu hv ∙ h.named k w q e known;
        linked = λ k q m known proper.
            let (x, y, up, down, edge) = h.linked k q m known proper in
            (x, y, up, down, At-add_edge u v x y t hu hv edge);
      }

  -- A pid that is no process, at the first vertex.
  pub missing-IsFaithful :
      (pid : ℤ) (t : Tree b) (earlier : List ℤ)
      → find pid t.ids ≡ none
      → find pid procs ≡ none
      → 0 < b.num_vertices t.graph
      → IsFaithful t earlier
      → IsFaithful (record t { ids = insert pid 0 t.ids }) earlier
  missing-IsFaithful pid t earlier absent gone some_vertex h = record {
    inside = λ k v e. elim (Bool-cases (eq_ℤ pid k)) [
      | inl same ↦ ground (arith, find-insert pid k 0 t.ids)
      | inr apart ↦ h.inside k v (ground (arith, find-insert pid k 0 t.ids))
    ];
    named = λ k v q e known. elim (Bool-cases (eq_ℤ pid k)) [
      | inl same ↦ cc (gone, known, (eq_ℤ_iff pid k).0 same)
      | inr apart ↦ h.named k v q (ground (arith, find-insert pid k 0 t.ids)) known
    ];
    linked = λ k q m known proper.
        let (u, v, up, down, edge) = h.linked k q m known proper in
        (
          u,
          v,
          find-insert_absent pid q.ppid 0 u t.ids absent up,
          find-insert_absent pid k 0 v t.ids absent down,
          edge,
        );
  }

  -- The process that was added comes to those so far.
  pub next-IsFaithful :
      (pid : ℤ) (p : Properties) (t : Tree b) (earlier : List ℤ)
      → find pid procs ≡ some p
      → (eq_ℤ (pos 0) p.pid ≡ false → Linked t p.ppid pid)
      → IsFaithful t earlier
      → IsFaithful t (pid ∷ earlier)
  next-IsFaithful pid p t earlier in_map link h = record {
    inside = h.inside;
    named = h.named;
    linked = λ k q m known proper. elim (At-cases m) [
      | inr later ↦ h.linked k q later known proper
      | inl same ↦
          let one : p ≡ q = cc (in_map, known, same) in
          subst (λ (r : Properties). Linked t r.ppid k) one
            (subst (Linked t p.ppid) (sym same)
              (link (ap (λ (r : Properties). eq_ℤ (pos 0) r.pid) one ∙ proper)))
    ];
  }
