-- ===== src/Process/Tree/Reach.antt =====
-- What `fetchDescendants` gathers, against the walks along the edges.
use keyfrog.Base.{
  ℕ, zero, suc, ℤ, ◌<◌, ◌≡◌, refl, ◌⊎◌, ⊎_elim, inl, inr, ◌↔◌, List, [], ◌∷◌, Option, none, some,
  arith, Option-cases, At, here, there, subst, sym,
}
use keyfrog.Base.Text.{Text}
use keyfrog.Base.Key.{int_key, pair_key}
use keyfrog.Base.Map.{find}
use keyfrog.Base.Set.{set_insert, At-set_insert, At-set_insert_self, At-set_insert_old, At-cases}
use keyfrog.Process.Graph.{Bgl}
use keyfrog.Process.Tree.{Tree, ProcSet, visit_edges, fetch_descendants_sub, fetch_descendants}

module _ (b : Bgl) (g : b.Graph) where
  -- A walk of one edge or more.
  pub data Below : ℕ → ℕ → Type 0 where
    child : {u v : ℕ} → At v (b.out_edges g u) → Below u v
    deeper : {u v w : ℕ} → At v (b.out_edges g u) → Below v w → Below u w

  abbrev pub entry : ℕ → ℤ × Text
  entry v = ((b.properties g v).pid, (b.properties g v).name)

  -- The entries below a vertex, or below one of a list of vertices.
  abbrev IsBelow : ℕ → ℤ × Text → Type 0
  IsBelow u e = (v : ℕ) × Below u v × (e ≡ entry v)

  abbrev IsBelowOne : List ℕ → ℤ × Text → Type 0
  IsBelowOne us e = (u : ℕ) × At u us × ((e ≡ entry u) ⊎ IsBelow u e)

  -- A call adds the entries below its vertex, and nothing else.
  abbrev Gathers : (ℤ × Text → Type 0) → ProcSet → ProcSet → Type 0
  Gathers P old new = (e : ℤ × Text) → At e new ↔ (At e old ⊎ P e)

  insert-Gathers : (k : ℤ × Text) (old : ProcSet) → Gathers (λ e. e ≡ k) old (set_insert k old)
  insert-Gathers k old e = (
    λ m. ⊎_elim inr inl (At-set_insert e k old m),
    ⊎_elim (At-set_insert_old k old)
        (λ eq. subst (λ x. At x (set_insert k old)) (sym eq) (At-set_insert_self k old)),
  )

  trans-Gathers :
      (P Q : ℤ × Text → Type 0) (old mid new : ProcSet)
      → Gathers P old mid
      → Gathers Q mid new
      → Gathers (λ e. P e ⊎ Q e) old new
  trans-Gathers P Q old mid new h k e = (
    λ m. ⊎_elim (λ n. ⊎_elim inl (λ p. inr (inl p)) ((h e).0 n)) (λ q. inr (inr q)) ((k e).0 m),
    ⊎_elim (λ m. (k e).1 (inl ((h e).1 (inl m))))
        (⊎_elim (λ p. (k e).1 (inl ((h e).1 (inr p)))) (λ q. (k e).1 (inr q))),
  )

  change-Gathers :
      (P Q : ℤ × Text → Type 0) (old new : ProcSet)
      → ((e : ℤ × Text) → P e ↔ Q e)
      → Gathers P old new
      → Gathers Q old new
  change-Gathers P Q old new iff h e = (
    λ m. ⊎_elim inl (λ p. inr ((iff e).0 p)) ((h e).0 m),
    ⊎_elim (λ m. (h e).1 (inl m)) (λ q. (h e).1 (inr ((iff e).1 q))),
  )

  IsBelowOne-cons :
      (v : ℕ) (us : List ℕ) (e : ℤ × Text)
      → (((e ≡ entry v) ⊎ IsBelow v e) ⊎ IsBelowOne us e) ↔ IsBelowOne (v ∷ us) e
  IsBelowOne-cons v us e = (
    ⊎_elim (λ p. (v, here, p)) (λ (u, m, p). (u, there m, p)),
    λ (u, m, p).
        ⊎_elim (λ eq. inl (subst (λ x. (e ≡ entry x) ⊎ IsBelow x e) eq p))
          (λ later. inr (u, later, p)) (At-cases m),
  )

  IsBelowOne-IsBelow : (v : ℕ) (e : ℤ × Text) → IsBelowOne (b.out_edges g v) e ↔ IsBelow v e
  IsBelowOne-IsBelow v e = (
    λ (u, m, p). ⊎_elim (λ eq. (u, child m, eq)) (λ (w, below, eq). (w, deeper m below, eq)) p,
    λ (w, below, eq). first w below eq,
  )
    where
      first : (w : ℕ) → Below v w → e ≡ entry w → IsBelowOne (b.out_edges g v) e
      first w (child m) eq = (w, m, inl eq)
      first w (deeper {v = u} m below) eq = (u, m, inr (w, below, eq))

  visit_edges-Gathers :
      (sub : ℕ → ProcSet → Option ProcSet)
      → ((v : ℕ) (old new : ProcSet) → sub v old ≡ some new → Gathers (IsBelow v) old new)
      → (us : List ℕ) (old new : ProcSet) → visit_edges b sub g us old ≡ some new
      → Gathers (IsBelowOne us) old new
  unfolding visit_edges
  visit_edges-Gathers sub gathers [] old new h = λ e.
      let same : old ≡ new = ground arith in
      rw (← same) (inl, ⊎_elim (λ m. m) (λ (u, m, p). elim m [ ]))
  visit_edges-Gathers sub gathers (v ∷ us) old new h =
      let start = set_insert (entry v) old in
      elim (Option-cases (sub v start)) [
        | inl stuck ↦ cc (rw (stuck, visit_edges) at h)
        | inr (mid, e) ↦
            let first =
              trans-Gathers (λ x. x ≡ entry v) (IsBelow v) old start mid
                (insert-Gathers (entry v) old) (gathers v start mid e) in
            let later = visit_edges-Gathers sub gathers us mid new (rw (e, visit_edges) at h) in
            change-Gathers _ _ old new (IsBelowOne-cons v us)
              (trans-Gathers _ (IsBelowOne us) old mid new first later)
      ]

  fetch_descendants_sub-Gathers :
      (fuel v : ℕ) (old new : ProcSet)
      → fetch_descendants_sub b fuel g v old ≡ some new
      → Gathers (IsBelow v) old new
  unfolding fetch_descendants_sub
  fetch_descendants_sub-Gathers zero v old new h = cc
  fetch_descendants_sub-Gathers (suc fuel) v old new h =
      change-Gathers _ _ old new (IsBelowOne-IsBelow v) (
        visit_edges-Gathers (fetch_descendants_sub b fuel g) (fetch_descendants_sub-Gathers fuel)
          (b.out_edges g v) old new h)

  -- The recursion ends within the height of the vertex.
  pub visit_edges_returns :
      (sub : ℕ → ProcSet → Option ProcSet) (us : List ℕ)
      → ((v : ℕ) → At v us → (old : ProcSet) → (new : ProcSet) × (sub v old ≡ some new))
      → (old : ProcSet) → (new : ProcSet) × (visit_edges b sub g us old ≡ some new)
  unfolding visit_edges
  visit_edges_returns sub [] returns old = (old, refl)
  visit_edges_returns sub (v ∷ us) returns old =
      let (mid, e) = returns v here (set_insert (entry v) old) in
      let (new, e') = visit_edges_returns sub us (λ w m. returns w (there m)) mid in
      (new, rw (e, visit_edges) e')

  pub fetch_descendants_sub_returns :
      (height : ℕ → ℕ)
      → ((u v : ℕ) → At v (b.out_edges g u) → height v < height u)
      → (fuel v : ℕ) (old : ProcSet) → height v < fuel
      → (new : ProcSet) × (fetch_descendants_sub b fuel g v old ≡ some new)
  unfolding fetch_descendants_sub
  fetch_descendants_sub_returns height falls zero v old h = absurd (omega arith)
  fetch_descendants_sub_returns height falls (suc fuel) v old h =
      visit_edges_returns (fetch_descendants_sub b fuel g) (b.out_edges g v)
        (λ w m old'.
          let lower = falls v w m in
          fetch_descendants_sub_returns height falls fuel w old' (omega arith))
        old

  visit_edges_stuck :
      (sub : ℕ → ProcSet → Option ProcSet) (u : ℕ) (us : List ℕ)
      → At u us
      → ((old : ProcSet) → sub u old ≡ none)
      → (old : ProcSet) → visit_edges b sub g us old ≡ none
  unfolding visit_edges
  visit_edges_stuck sub u [] m stuck old = elim m [ ]
  visit_edges_stuck sub u (v ∷ us) m stuck old =
      elim (Option-cases (sub v (set_insert (entry v) old))) [
        | inl e ↦ rw (e, visit_edges)
        | inr (mid, e) ↦
            ⊎_elim (λ same. cc (stuck (set_insert (entry v) old), e, same))
              (λ later. rw (e, visit_edges) (visit_edges_stuck sub u us later stuck mid))
              (At-cases m)
      ]

  -- Above a cycle the recursion has no end, whatever the fuel.
  pub fetch_descendants_sub_stuck :
      (fuel : ℕ) {v w : ℕ} (old : ProcSet)
      → Below v w
      → Below w w
      → fetch_descendants_sub b fuel g v old ≡ none
  unfolding fetch_descendants_sub
  fetch_descendants_sub_stuck zero old below cycle = refl
  fetch_descendants_sub_stuck (suc fuel) {v} {w} old (child m) cycle =
      visit_edges_stuck (fetch_descendants_sub b fuel g) w (b.out_edges g v) m
        (λ old'. fetch_descendants_sub_stuck fuel old' cycle cycle) old
  fetch_descendants_sub_stuck (suc fuel) {v} {w} old (deeper {v = u} m below) cycle =
      visit_edges_stuck (fetch_descendants_sub b fuel g) u (b.out_edges g v) m
        (λ old'. fetch_descendants_sub_stuck fuel old' below cycle) old

-- For a pid of the tree, a fetchDescendants that returns holds an entry exactly when it is the pid
-- and name of a vertex reached from the pid's vertex along one edge or more.
pub fetch_descendants_correct :
    (b : Bgl) (fuel : ℕ) (pid : ℤ) (t : Tree b) (v : ℕ) (procs : ProcSet) (e : ℤ × Text)
    → find pid t.ids ≡ some v
    → fetch_descendants b fuel pid t ≡ some procs
    → At e procs ↔ ((w : ℕ) × Below b t.graph v w × (e ≡ entry b t.graph w))
unfolding fetch_descendants
fetch_descendants_correct b fuel pid t v procs e found h =
    let (only, all) =
      fetch_descendants_sub-Gathers b t.graph fuel v [] procs (rw (found, fetch_descendants) at h)
        e in
    (λ m. ⊎_elim (λ old. elim old [ ]) (λ p. p) (only m), λ p. all (inr p))

-- Where the vertices have heights that fall along every edge, fetchDescendants of a pid of the tree
-- returns within the height of its vertex and one more call.
pub fetch_descendants_returns :
    (b : Bgl) (pid : ℤ) (t : Tree b) (v : ℕ) (height : ℕ → ℕ)
    → find pid t.ids ≡ some v
    → ((u w : ℕ) → At w (b.out_edges t.graph u) → height w < height u)
    → (procs : ProcSet) × (fetch_descendants b (suc (height v)) pid t ≡ some procs)
unfolding fetch_descendants
fetch_descendants_returns b pid t v height found falls =
    rw (found, fetch_descendants)
      (fetch_descendants_sub_returns b t.graph height falls (suc (height v)) v [] (omega arith))

-- For a pid whose vertex is below itself fetchDescendants returns with no amount of fuel.
pub fetch_descendants_stuck :
    (b : Bgl) (fuel : ℕ) (pid : ℤ) (t : Tree b) (v : ℕ)
    → find pid t.ids ≡ some v
    → Below b t.graph v v
    → fetch_descendants b fuel pid t ≡ none
unfolding fetch_descendants
fetch_descendants_stuck b fuel pid t v found cycle =
    rw (found, fetch_descendants) (fetch_descendants_sub_stuck b t.graph fuel [] cycle cycle)
