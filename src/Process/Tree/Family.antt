-- ===== src/Process/Tree/Family.antt =====
-- The whole of the tree that is built: its vertices, its edges and their order.
use keyfrog.Base.{
  not, ◌||◌, ℕ, suc, ℤ, pos, ◌<◌, ◌≡◌, ◌⊎◌, ⊎_elim, refl, sym, ap, ◌∙◌, inl, inr, true, false, List,
  [], ◌∷◌, none, some, arith, Option-cases, Bool-cases, eq_ℤ, eq_ℤ_iff, ==_iff, At, here, there,
  subst,
}
use keyfrog.Base.Key.{int_key}
use keyfrog.Base.Set.{At-cases}
use keyfrog.Base.Map.{find, insert, find-insert, find-insert_self}
use keyfrog.Process.{Properties, ProcessMap}
use keyfrog.Process.Graph.{Bgl, BglLaws}
use keyfrog.Process.Tree.{Tree, returned, connect, add_each}
use keyfrog.Process.Tree.Build.{grown}
use keyfrog.Process.Tree.Orphan.{At-last}
use keyfrog.Process.Tree.Ordered.{
  IsOrdered, Placed, Placed-absent, Placed-new, attached, stepped, step-Adds,
}
use keyfrog.Process.Tree.Traced.{IsTraced, grown-IsTraced, attached-IsTraced}
use keyfrog.Process.Tree.Rising.{IsRising, grown-IsRising, attached-IsRising}
use keyfrog.Process.Tree.Faithful.{
  IsFaithful, find-insert_absent, grown-num, grown-IsFaithful, edge-IsFaithful, missing-IsFaithful,
  next-IsFaithful,
}

-- No process but 0 is its own parent.
abbrev pub NoOwnParent : ProcessMap → Type 0
NoOwnParent [] = Unit
NoOwnParent ((k, p) ∷ rest) = (eq_ℤ (pos 0) p.pid || not (eq_ℤ k p.ppid) ≡ true) × NoOwnParent rest

other_parent :
    (procs : ProcessMap) (k : ℤ) (p : Properties)
    → NoOwnParent procs
    → find k procs ≡ some p
    → eq_ℤ (pos 0) p.pid ≡ false
    → eq_ℤ k p.ppid ≡ false
unfolding find
other_parent [] k p h e proper = cc e
other_parent ((j, q) ∷ rest) k p (h, more) e proper = elim (Bool-cases (eq_ℤ j k)) [
  | inl same ↦ ground (arith, eq_ℤ_iff j k)
  | inr apart ↦ other_parent rest k p more (rw apart at e) proper
]

-- The pid that comes first.
abbrev pub first_pid : ProcessMap → ℤ
first_pid [] = pos 0
first_pid ((pid, _) ∷ _) = pid

module _ (b : Bgl) (laws : BglLaws b) (procs : ProcessMap) where
  last_edge :
      (u v : ℕ) (g : b.Graph)
      → u < b.num_vertices g
      → v < b.num_vertices g
      → At v (b.out_edges (b.add_edge u v g) u)
  last_edge u v g hu hv =
      subst (At v) (sym (laws.out_edges-add_edge u v g u hu hv ∙ rw ((==_iff u u).1 refl) refl))
        (At-last v (b.out_edges g u))

  -- Behind a new vertex, whose parent came earlier or is no process.
  attached-IsFaithful :
      (n : ℕ) (pid : ℤ) (p : Properties) (t : Tree b) (earlier : List ℤ)
      → find pid procs ≡ some p
      → find pid t.ids ≡ some n
      → (find p.ppid t.ids ≡ none → find p.ppid procs ≡ none)
      → IsFaithful b laws procs t earlier
      → IsFaithful b laws procs (attached b laws procs n p t) (pid ∷ earlier)
  unfolding connect
  attached-IsFaithful n pid p t earlier in_map found orphan h =
      let next = next-IsFaithful b laws procs pid p in
      let hn = h.inside pid n found in
      elim (Bool-cases (eq_ℤ (pos 0) p.pid)) [
        | inl root ↦ rw root (next t earlier in_map (λ proper. cc) h)
        | inr proper ↦ elim (Option-cases (find p.ppid t.ids)) [
          | inr (u, present) ↦
              let hu = h.inside p.ppid u present in
              rw (proper, connect, present)
                (next (record t { graph = b.add_edge u n t.graph }) earlier in_map
                  (λ _. (u, n, present, found, last_edge u n t.graph hu hn))
                  (edge-IsFaithful b laws procs u n t earlier hu hn h))
          | inl absent ↦
              let h0 : 0 < b.num_vertices t.graph = omega (arith, hn) in
              let t0 : Tree b = record t { ids = insert p.ppid 0 t.ids } in
              rw (proper, connect, absent)
                (next (record t0 { graph = b.add_edge 0 n t.graph }) earlier in_map
                  (λ _. (
                    0,
                    n,
                    find-insert_self p.ppid 0 t.ids,
                    find-insert_absent p.ppid pid 0 n t.ids absent found,
                    last_edge 0 n t.graph h0 hn,
                  ))
                  (edge-IsFaithful b laws procs 0 n t0 earlier h0 hn
                    (missing-IsFaithful b laws procs p.ppid t earlier absent (orphan absent) h0 h)))
        ]
      ]

  -- The tree so far, with the pids that were added.
  pub record Built (t : Tree b) (earlier : List ℤ) : Type 0 where
    pub placed : Placed procs t.ids earlier
    pub faithful : IsFaithful b laws procs t earlier
    pub rising : IsRising b laws procs (first_pid procs) t
    pub traced : IsTraced b laws procs t

  stepped-Built :
      (fuel : ℕ) (pid : ℤ) (p : Properties) (t : Tree b) (earlier : List ℤ)
      → NoOwnParent procs
      → find pid procs ≡ some p
      → ¬ At pid earlier
      → At p.ppid (pid ∷ earlier) ⊎ (find p.ppid procs ≡ none)
      → (0 < b.num_vertices t.graph) ⊎ (pid ≡ first_pid procs)
      → Built t earlier
      → Built (stepped b laws procs pid p t) (pid ∷ earlier)
  stepped-Built fuel pid p t earlier own in_map new parent start h =
      let n = b.num_vertices t.graph in
      let absent = Placed-absent b laws procs pid p t.ids earlier h.placed in_map new in
      let known = Placed-new procs pid n t.ids earlier h.placed in
      let orphan : find p.ppid (insert pid n t.ids) ≡ none → find p.ppid procs ≡ none =
        λ gone. ⊎_elim (λ m. let (u, is) = known.known p.ppid m in cc (gone, is)) (λ g. g) parent in
      let whole = grown-IsFaithful b laws procs pid p t earlier absent in_map h.faithful in
      record {
        placed = (step-Adds b laws procs fuel pid p t earlier h.placed in_map new parent).1;
        faithful =
            attached-IsFaithful n pid p (grown b pid p t) earlier in_map
              (find-insert_self pid n t.ids) orphan whole;
        rising =
            attached-IsRising b laws procs (first_pid procs) n p (grown b pid p t)
              (omega (arith, grown-num b laws procs pid p t)) orphan
              (λ u proper e. h.faithful.inside p.ppid u (
                ground (
                  arith,
                  find-insert pid p.ppid n t.ids,
                  other_parent procs pid p own in_map proper,
                )))
              (grown-IsRising b laws procs (first_pid procs) pid p t start h.rising);
        traced =
            attached-IsTraced b laws procs n pid p (grown b pid p t) earlier in_map
              (find-insert_self pid n t.ids) whole
              (grown-IsTraced b laws procs pid p t earlier absent h.faithful h.traced);
      }

  -- The trees while the processes of a map are added.
  pub all-Built :
      (fuel : ℕ) (left : ProcessMap) (t : Tree b) (earlier : List ℤ)
      → NoOwnParent procs
      → (0 < b.num_vertices t.graph) ⊎ (first_pid left ≡ first_pid procs)
      → Built t earlier
      → IsOrdered procs left earlier
      → (t' : Tree b) × (done : List ℤ) × (add_each b (suc (suc fuel)) procs left true t
          ≡ returned true t')
        × Built t' done
        × ((k : ℤ) → At k earlier → At k done)
        × ((k : ℤ) (p : Properties) → At (k, p) left → At k done)
  unfolding add_each
  all-Built fuel [] t earlier own start h o = (t, earlier, refl, h, λ k m. m, λ k p m. elim m [ ])
  all-Built fuel ((pid, p) ∷ rest) t earlier own start h (in_map, new, parent, later) =
      let (e, _) = step-Adds b laws procs fuel pid p t earlier h.placed in_map new parent in
      let mid = stepped b laws procs pid p t in
      let next = stepped-Built fuel pid p t earlier own in_map new parent start h in
      let (v, found) = next.placed.known pid here in
      let inside = next.faithful.inside pid v found in
      let (t', done, e', h', before, after) =
        all-Built fuel rest mid (pid ∷ earlier) own (inl (omega (arith, inside))) next later in
      (
        t',
        done,
        rw (e, add_each) e',
        h',
        λ k m. before k (there m),
        λ k q m.
            ⊎_elim
              (λ same. before k (subst (λ j. At j (pid ∷ earlier)) (sym (ap (λ x. x.0) same)) here))
              (λ n. after k q n) (At-cases m),
      )
