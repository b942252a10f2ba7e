-- ===== src/Process/Tree/Descend.antt =====
-- Who is found below a process of the tree that is built.
use keyfrog.Base.{
  ◌≤◌, ==_iff, ◌==◌, ◌∙◌, ⊎_elim, ◌<◌, ◌≢◌, ℕ, suc, ℤ, pos, ◌≡◌, refl, sym, ap, inl, inr, true,
  false, List, [], ◌∷◌, some, arith, Bool-cases, eq_ℤ, eq_ℤ_iff, At, here, there, subst,
}
use keyfrog.Base.Key.{int_key}
use keyfrog.Base.Map.{find}
use keyfrog.Process.{Text, Properties, ProcessMap}
use keyfrog.Process.Graph.{Bgl, BglLaws}
use keyfrog.Process.Tree.{
  Tree, ProcSet, clear, returned, add_connect_processes, fetch_descendants, fetch_name,
}
use keyfrog.Process.Tree.Reach.{deeper, Below, child, fetch_descendants_correct}
use keyfrog.Process.Tree.Ordered.{IsOrdered}
use keyfrog.Process.Tree.Rising.{fetch_descendants-IsRising}
use keyfrog.Base.{◌↔◌}
use keyfrog.Process.Tree.Family.{NoOwnParent, first_pid, Built, all-Built}

module _ (b : Bgl) (laws : BglLaws b) (procs : ProcessMap) where
  -- The processes below a pid, as the map tells it: their parents, other than that of the process 0.
  pub data Descends : ℤ → ℤ → Type 0 where
    child_of :
        {a k : ℤ} (p : Properties)
        → find k procs ≡ some p
        → eq_ℤ (pos 0) p.pid ≡ false
        → p.ppid ≡ a
        → Descends a k
    below : {a k m : ℤ} → Descends a k → Descends k m → Descends a m

  -- The pid and the name of one of them.
  abbrev pub IsDescendant : ℤ → ℤ × Text → Type 0
  IsDescendant a e =
      (k : ℤ) × (p : Properties) × Descends a k × (find k procs ≡ some p) × (e ≡ (p.pid, p.name))

  find-At : (k : ℤ) (p : Properties) (m : ProcessMap) → find k m ≡ some p → At (k, p) m
  unfolding find
  find-At k p [] e = cc e
  find-At k p ((j, q) ∷ m) e = elim (Bool-cases (eq_ℤ j k)) [
    | inl same ↦
        let is : (j, q) ≡ (k, p) = ground (arith, eq_ℤ_iff j k) in
        subst (λ x. At x ((j, q) ∷ m)) is here
    | inr apart ↦ there (find-At k p m (rw apart at e))
  ]

  Below-trans : {g : b.Graph} {u v w : ℕ} → Below b g u v → Below b g v w → Below b g u w
  Below-trans (child m) more = deeper m more
  Below-trans (deeper m rest) more = deeper m (Below-trans rest more)

  module _ (t : Tree b) (done : List ℤ) (f : Built b laws procs t done)
      (all : (k : ℤ) (p : Properties) → At (k, p) procs → At k done) where
    Descends-Below :
        {a m : ℤ}
        → Descends a m
        → (u v : ℕ) × (find a t.ids ≡ some u) × (find m t.ids ≡ some v) × Below b t.graph u v
    Descends-Below (child_of {a} {k} p known proper is) =
        let (u, v, up, down, edge) =
          f.faithful.linked k p (all k p (find-At k p procs known)) known proper in
        (u, v, subst (λ j. find j t.ids ≡ some u) is up, down, child edge)
    Descends-Below (below {a} {k} {m} first later) =
        let (u, v, up, down, walk) = Descends-Below first in
        let (v', w, up', down', walk') = Descends-Below later in
        let same : v ≡ v' = ground (arith, down, up') in
        (u, w, up, down', Below-trans walk (subst (λ x. Below b t.graph x w) (sym same) walk'))

    Descends-fetch_descendants :
        (fuel : ℕ) (a k : ℤ) (p : Properties) (found : ProcSet)
        → Descends a k
        → find k procs ≡ some p
        → fetch_descendants b fuel a t ≡ some found
        → At (p.pid, p.name) found
    Descends-fetch_descendants fuel a k p found d known e =
        let (u, v, up, down, walk) = Descends-Below d in
        let is : b.properties t.graph v ≡ p = f.faithful.named k v p down known in
        (fetch_descendants_correct b fuel a t u found (p.pid, p.name) up e).1
          (v, walk, ap (λ (q : Properties). (q.pid, q.name)) (sym is))

    named-fetch_name : (k : ℤ) (p : Properties) → find k procs ≡ some p → fetch_name b k t ≡ p.name
    unfolding fetch_name
    named-fetch_name k p known =
        let (v, e) = f.placed.known k (all k p (find-At k p procs known)) in
        let is = f.faithful.named k v p e known in rw (fetch_name, e, is) refl

    Below-Descends :
        {u w : ℕ} (a : ℤ)
        → find a t.ids ≡ some u
        → 0 < u
        → u < b.num_vertices t.graph
        → Below b t.graph u w
        → (k : ℤ) × (p : Properties) × (find k t.ids ≡ some w)
          × (find k procs ≡ some p)
          × Descends a k
    Below-Descends {u} {w} a place h0 hu (child m) =
        let (k, p, at_w, known, proper, at_u) = f.traced.origin u w hu h0 m in
        (k, p, at_w, known, child_of p known proper (f.traced.single p.ppid a u at_u place h0))
    Below-Descends {u} {w} a place h0 hu (deeper {v} m rest) =
        let (k, p, at_v, known, proper, at_u) = f.traced.origin u v hu h0 m in
        let (r, hv) = f.rising.rising u v hu m in
        let up : u < v = ⊎_elim (λ l. l) (λ z. absurd (omega (arith, z.0, h0))) r in
        let (j, q, at_w, known', later) = Below-Descends k at_v (omega (arith, up)) hv rest in
        let first = child_of p known proper (f.traced.single p.ppid a u at_u place h0) in
        (j, q, at_w, known', below first later)

    found-IsDescendant :
        (fuel : ℕ) (a : ℤ) (u : ℕ) (found : ProcSet) (x : ℤ × Text)
        → find a t.ids ≡ some u
        → 0 < u
        → u < b.num_vertices t.graph
        → fetch_descendants b fuel a t ≡ some found
        → At x found
        → IsDescendant a x
    found-IsDescendant fuel a u found x place h0 hu e m =
        let (w, walk, is) = (fetch_descendants_correct b fuel a t u found x place e).0 m in
        let (k, p, at_w, known, d) = Below-Descends a place h0 hu walk in
        let props = f.faithful.named k w p at_w known in
        (k, p, d, known, is ∙ ap (λ (r : Properties). (r.pid, r.name)) props)

    later_vertex :
        (a : ℤ) (u : ℕ) (q : Properties)
        → find a t.ids ≡ some u
        → find a procs ≡ some q
        → a ≢ first_pid procs
        → 0 < u
    later_vertex a u q place known other = elim (Bool-cases (u == 0)) [
      | inl zeroth ↦
          absurd (other (f.rising.rooted a q (place ∙ ap some ((==_iff u 0).0 zeroth)) known))
      | inr later ↦ ground arith
    ]

    Built-fetch_descendants :
        (fuel : ℕ) (a : ℤ) (q : Properties)
        → b.num_vertices t.graph ≤ fuel
        → find a procs ≡ some q
        → a ≢ first_pid procs
        → (found : ProcSet) × (fetch_descendants b fuel a t ≡ some found)
          × ((e : ℤ × Text) → At e found ↔ IsDescendant a e)
    Built-fetch_descendants fuel a q enough known other =
        let (u, place) = f.placed.known a (all a q (find-At a q procs known)) in
        let hu = f.faithful.inside a u place in
        let (found, e) =
          fetch_descendants-IsRising b laws procs (first_pid procs) t fuel a u q f.rising enough
            place known other hu in
        (
          found,
          e,
          λ x. (
            λ m.
                found-IsDescendant fuel a u found x place (later_vertex a u q place known other) hu
                  e m,
            λ (k, p, d, in_map, is).
                subst (λ y. At y found) (sym is)
                  (Descends-fetch_descendants fuel a k p found d in_map e),
          ),
        )

  -- What is read from the tree is what the map tells: the names, and below each process but the first
  -- those that descend from it and no others.
  abbrev pub Tells : Tree b → Type 0
  Tells t =
      ((k : ℤ) (p : Properties) → find k procs ≡ some p → fetch_name b k t ≡ p.name)
      × ((fuel : ℕ) (a : ℤ) (q : Properties)
          → b.num_vertices t.graph ≤ fuel
          → find a procs ≡ some q
          → a ≢ first_pid procs
          → (found : ProcSet) × (fetch_descendants b fuel a t ≡ some found)
            × ((e : ℤ × Text) → At e found ↔ IsDescendant a e))

  -- Over a graph that keeps its laws, and for a map in which each process has one entry, no process
  -- but 0 is its own parent, and each parent comes earlier, is the process 0 itself or has no
  -- entry, the empty tree is filled with calls at most two deep and the answer true; then fetchName
  -- gives the name of each process of the map, and for each of them but the first fetchDescendants
  -- returns, with as much fuel as the tree has vertices or more, a set with the pid and name of
  -- exactly the processes that descend from it by the map.
  pub add_connect_processes-Tells :
      (fuel : ℕ)
      → IsOrdered procs procs []
      → NoOwnParent procs
      → (t : Tree b) × (add_connect_processes b (suc (suc fuel)) procs (clear b) ≡ returned true t)
        × Tells t
  unfolding add_connect_processes find
  add_connect_processes-Tells fuel o own =
      let start : Built b laws procs (clear b) [] = record {
        placed = record { known = λ k m. elim m [ ]; only = λ k v p e in_map. cc e };
        faithful = record {
          inside = λ k v e. cc e;
          named = λ k v p e known. cc e;
          linked = λ k p m known proper. elim m [ ];
        };
        rising = record {
          rising = λ u w hu m. absurd (omega (arith, hu, laws.num-empty));
          rooted = λ k p e known. cc e;
        };
        traced = record {
          origin = λ u w hu h0 m. absurd (omega (arith, hu, laws.num-empty));
          single = λ i j v at_i at_j h0. cc at_i;
        };
      } in
      let (t, done, e, f, before, after) =
        all-Built b laws procs fuel procs (clear b) [] own (inr refl) start o in
      (t, e, (named-fetch_name t done f after, Built-fetch_descendants t done f after))
