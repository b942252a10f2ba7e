-- ===== src/Process/Graph.antt =====
-- The Boost graph of the process tree, `adjacency_list<vecS, vecS, directedS, ProcessProperties>`,
-- as an interface: a vertex is its index, and edges keep the order in which they were added.
use keyfrog.Base.{ℕ, suc, ◌<◌, ◌≡◌, List, [], ◌∷◌, ◌++◌, ◌==◌, if◌then◌else◌}
use keyfrog.Process.{Properties}

pub record Bgl : Type 1 where
  pub Graph : Type 0
  -- a graph with no vertex, as after `clear()`
  pub empty : Graph
  pub num_vertices : Graph → ℕ
  -- the new vertex is the old number of vertices
  pub add_vertex : Graph → Graph
  -- `g[v]`, read and written
  pub properties : Graph → ℕ → Properties
  pub set_properties : ℕ → Properties → Graph → Graph
  pub add_edge : (source target : ℕ) → Graph → Graph
  -- the targets of the edges out of a vertex
  pub out_edges : Graph → ℕ → List ℕ

pub record BglLaws (b : Bgl) : Type 0 where
  pub num-empty : b.num_vertices b.empty ≡ 0
  pub num-add_vertex : (g : b.Graph) → b.num_vertices (b.add_vertex g) ≡ suc (b.num_vertices g)
  pub num-set_properties :
      (v : ℕ) (p : Properties) (g : b.Graph)
      → b.num_vertices (b.set_properties v p g) ≡ b.num_vertices g
  pub num-add_edge :
      (u v : ℕ) (g : b.Graph)
      → u < b.num_vertices g
      → v < b.num_vertices g
      → b.num_vertices (b.add_edge u v g) ≡ b.num_vertices g
  pub properties-add_vertex :
      (g : b.Graph) (w : ℕ)
      → w < b.num_vertices g
      → b.properties (b.add_vertex g) w ≡ b.properties g w
  pub properties-set_properties :
      (v : ℕ) (p : Properties) (g : b.Graph) (w : ℕ)
      → v < b.num_vertices g
      → b.properties (b.set_properties v p g) w ≡ (if v == w then p else b.properties g w)
  pub properties-add_edge :
      (u v : ℕ) (g : b.Graph) (w : ℕ)
      → u < b.num_vertices g
      → v < b.num_vertices g
      → b.properties (b.add_edge u v g) w ≡ b.properties g w
  pub out_edges-add_vertex :
      (g : b.Graph) (w : ℕ)
      → w < suc (b.num_vertices g)
      → b.out_edges (b.add_vertex g) w ≡ (if w == b.num_vertices g then [] else b.out_edges g w)
  pub out_edges-set_properties :
      (v : ℕ) (p : Properties) (g : b.Graph) (w : ℕ)
      → b.out_edges (b.set_properties v p g) w ≡ b.out_edges g w
  pub out_edges-add_edge :
      (u v : ℕ) (g : b.Graph) (w : ℕ)
      → u < b.num_vertices g
      → v < b.num_vertices g
      → b.out_edges (b.add_edge u v g) w
        ≡ (if u == w then b.out_edges g w ++ v ∷ [] else b.out_edges g w)
