-- ===== src/Tests/Instances.antt =====
-- A Boost, a sqlite, a graph and an X server that are enough to run the model.
use keyfrog.Base.{
  ℕ, ℤ, suc, ◌+ℤ◌, ◌≡◌, refl, inl, inr, true, false, ◌&&◌, List, [], ◌∷◌, ◌++◌, Option, none, some,
  eq_ℤ, if◌then◌else◌, arith, Option-cases, ap, ◌==◌,
}
use keyfrog.Base.Text.{Text, Avoids}
use keyfrog.Base.Decimal.{atoi, atoi-show_int}
use keyfrog.Storage.Manager.{Boost, BoostLaws}
use keyfrog.Storage.Sqlite.{Step, Sqlite, SqliteLaws}
use keyfrog.Process.{Properties, no_properties}
use keyfrog.Process.Graph.{Bgl, BglLaws}

-- A byte in front of the first field.
abbrev push : ℕ → List Text → List Text
push x [] = (x ∷ []) ∷ []
push x (field ∷ rest) = (x ∷ field) ∷ rest

unfoldable pub split : ℕ → Text → List Text
split c [] = [] ∷ []
split c (x ∷ s) = let rest = split c s in if x == c then [] ∷ rest else push x rest

split_rest : (c : ℕ) (t : Text) → Avoids c t → split c t ≡ t ∷ []
unfolding split
split_rest c [] h = refl
split_rest c (x ∷ t) h = ground (arith, split_rest c t h.1, h.0)

split_pair : (c : ℕ) (s t : Text) → Avoids c s → Avoids c t → split c (s ++ (c ∷ t)) ≡ s ∷ t ∷ []
unfolding split
split_pair c [] t h k = ground (arith, split_rest c t k)
split_pair c (x ∷ s) t h k = ground (arith, split_pair c s t h.1 k, h.0)

abbrev pub boost : Boost
boost = record { split = split; lexical_cast = λ s. some (atoi s) }

pub boost-laws : BoostLaws boost
boost-laws = record { split_pair = split_pair; cast_show = λ i. ap some (atoi-show_int i) }

-- A table as the function from a cluster and a group to the count.
abbrev pub Table : Type 0
Table = ℤ → ℤ → Option ℤ

abbrev pub put : ℤ → ℤ → ℤ → Table → Table
put c g n db c' g' = if eq_ℤ c c' && eq_ℤ g g' then some n else db c' g'

-- The statements, once the row was looked up.
abbrev updated : Option ℤ → ℤ → ℤ → ℤ → Table → Step Table
updated none n c g db = record { done = true; changes = 0; db = db }
updated (some m) n c g db = record { done = true; changes = 1; db = put c g (m +ℤ n) db }

abbrev inserted : Option ℤ → ℤ → ℤ → ℤ → Table → Step Table
inserted none n c g db = record { done = true; changes = 1; db = put c g n db }
inserted (some m) n c g db = record { done = false; changes = 0; db = db }

abbrev update : ℤ → ℤ → ℤ → Table → Step Table
update n c g db = updated (db c g) n c g db

abbrev insert : ℤ → ℤ → ℤ → ℤ → Table → Step Table
insert c e n g db = inserted (db c g) n c g db

abbrev pub sqlite : Sqlite
sqlite = record { Db = Table; count_at = λ db. db; update = update; insert = insert }

abbrev pub no_rows : Table
no_rows c g = none

pub sqlite-laws : SqliteLaws sqlite
sqlite-laws = record {
  update_met = λ n c g m db e d.
      let u = ap (λ r. updated r n c g db) e in
      (ap (λ s. s.changes) u, λ c' g'. ap (λ s. s.db c' g') u);
  update_missed = λ n c g db e.
      let u = ap (λ r. updated r n c g db) e in
      ((λ d. ap (λ s. s.changes) u), λ c' g'. ap (λ s. s.db c' g') u);
  update_failed = λ n c g db c' g' d. elim (Option-cases (db c g)) [
    | inl e ↦ ap (λ s. s.db c' g') (ap (λ r. updated r n c g db) e)
    | inr (m, e) ↦ cc (e, d)
  ];
  insert_done = λ c e n g db d. elim (Option-cases (db c g)) [
    | inl absent ↦
        let u = ap (λ r. inserted r n c g db) absent in
        (absent, ap (λ s. s.changes) u, λ c' g'. ap (λ s. s.db c' g') u)
    | inr (m, present) ↦ cc (present, d)
  ];
  insert_failed = λ c e n g db c' g' d. elim (Option-cases (db c g)) [
    | inl absent ↦ cc (absent, d)
    | inr (m, present) ↦ ap (λ s. s.db c' g') (ap (λ r. inserted r n c g db) present)
  ];
}

pub updates_finish : (n c g : ℤ) (db : Table) → (update n c g db).done ≡ true
updates_finish n c g db = go (db c g)
  where
    go : (r : Option ℤ) → (updated r n c g db).done ≡ true
    go none = refl
    go (some m) = refl

pub inserts_finish : (c e n g : ℤ) (db : Table) → db c g ≡ none → (insert c e n g db).done ≡ true
inserts_finish c e n g db absent = ap (λ r. (inserted r n c g db).done) absent

-- A database that another program has locked.
abbrev refused : Table → Step Table
refused db = record { done = false; changes = 0; db = db }

abbrev pub locked : Sqlite
locked = record {
  Db = Table;
  count_at = λ db. db;
  update = λ n c g. refused;
  insert = λ c e n g. refused;
}

pub locked-laws : SqliteLaws locked
locked-laws = record {
  update_met = λ n c g m db e d. cc;
  update_missed = λ n c g db e. ((λ d. refl), λ c' g'. refl);
  update_failed = λ n c g db c' g' d. refl;
  insert_done = λ c e n g db d. cc;
  insert_failed = λ c e n g db c' g' d. refl;
}

-- A graph as its number of vertices, their properties and their edges.
pub record Graph : Type 0 where
  pub size : ℕ
  pub properties : ℕ → Properties
  pub edges : ℕ → List ℕ

abbrev pub bgl : Bgl
bgl = record {
  Graph = Graph;
  empty = record { size = 0; properties = λ v. no_properties; edges = λ v. [] };
  num_vertices = λ g. g.size;
  add_vertex =
      λ g. record g { size = suc g.size; edges = λ w. if w == g.size then [] else g.edges w };
  properties = λ g. g.properties;
  set_properties = λ v p g. record g { properties = λ w. if v == w then p else g.properties w };
  add_edge = λ u v g. record g { edges = λ w. if u == w then g.edges w ++ (v ∷ []) else g.edges w };
  out_edges = λ g. g.edges;
}

pub bgl-laws : BglLaws bgl
bgl-laws = record {
  num-empty = refl;
  num-add_vertex = λ g. refl;
  num-set_properties = λ v p g. refl;
  num-add_edge = λ u v g h k. refl;
  properties-add_vertex = λ g w h. refl;
  properties-set_properties = λ v p g w h. refl;
  properties-add_edge = λ u v g w h k. refl;
  out_edges-add_vertex = λ g w h. refl;
  out_edges-set_properties = λ v p g w. refl;
  out_edges-add_edge = λ u v g w h k. refl;
}
