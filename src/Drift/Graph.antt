-- ===== src/Drift/Graph.antt =====
-- evaluator/drift/graph_drift.py: the pooled graph of a window, and the comparison of two. The
-- eigenvalues are scipy's: the distance of the spectra of two matrices is a parameter.
use post_rag_drift_evaluator.Prelude.{
  ℕ, ◌-◌, ◌*◌, String, Bool, false, not, ◌&&◌, ◌||◌, none, some, List, [], ◌∷◌, ◌++◌, map, length,
  str_eq, ltb, if◌then◌else◌,
}
use post_rag_drift_evaluator.Float.{Float}
use post_rag_drift_evaluator.Dict.{Dict, get}
use post_rag_drift_evaluator.Value.{Value, nothing, dict_of, str_value}
use post_rag_drift_evaluator.Telemetry.{GraphTopology}
use post_rag_drift_evaluator.Drift.Swarm.{is_seen}

pub record GraphDriftCalculator (F : Type 0) : Type 0 where
  pub spectral_threshold : F
  pub density_threshold : F
  pub spectral_k : ℕ

-- A `node_count_delta` is a whole number.
pub record GraphDrift (F : Type 0) : Type 0 where
  pub spectral_distance : F
  pub density_delta : F
  pub node_count_delta : F
  pub is_graph_drifted : Bool

-- The nodes in the order in which they are seen, and the set of edges, each once.
pub record Pool : Type 0 where
  pub pooled_nodes : List String
  pub edge_pairs : List (String × String)

abbrev pub has_pair : String × String → List (String × String) → Bool
has_pair (a, b) [] = false
has_pair (a, b) ((c, d) ∷ ps) = (str_eq c a && str_eq d b) || has_pair (a, b) ps

abbrev keeps_edge : String → String → Bool
keeps_edge source target =
    not (str_eq source "") && not (str_eq target "") && not (str_eq source target)

-- A window without graphs.
abbrev pub empty_pool : Pool
empty_pool = record { pooled_nodes = []; edge_pairs = [] }

module _ {F : Type 0} ⦃fl : Float F⦄ where
  open fl use {decimal, sub, div, abs, lt}

  abbrev second_endpoint : String → Dict (Value F) → String
  second_endpoint second d = elim (get second d) [ none ↦ "None" | some v ↦ str_value v ]

  -- `str(d.get(first))`, of `d.get(second)` when that is `None`
  abbrev endpoint : String → String → Dict (Value F) → String
  endpoint first second d = elim (get first d) [
    | some nothing ↦ second_endpoint second d
    | some v ↦ str_value v
    | none ↦ second_endpoint second d
  ]

  abbrev node_id : Dict (Value F) → String
  node_id d = elim (get "id" d) [
    | some nothing ↦ str_value (dict_of d)
    | some v ↦ str_value v
    | none ↦ str_value (dict_of d)
  ]

  unfoldable pub pool_nodes : List (Dict (Value F)) → Pool → Pool
  unfolding get str_value
  pool_nodes [] pool = pool
  pool_nodes (d ∷ ds) pool = pool_nodes ds (
      if is_seen (node_id d) pool.pooled_nodes
      then pool
      else record pool { pooled_nodes = pool.pooled_nodes ++ (node_id d ∷ []) })

  unfoldable pub pool_edges : List (Dict (Value F)) → Pool → Pool
  unfolding get str_value
  pool_edges [] pool = pool
  pool_edges (d ∷ ds) pool =
      let source = endpoint "source" "from" d in
      let target = endpoint "target" "to" d in
      pool_edges ds (
        if keeps_edge source target && not (has_pair (source, target) pool.edge_pairs)
        then record pool { edge_pairs = pool.edge_pairs ++ ((source, target) ∷ []) }
        else pool)

  unfoldable pub pool_graphs : List (GraphTopology F) → Pool → Pool
  unfolding pool_nodes pool_edges
  pool_graphs [] pool = pool
  pool_graphs (g ∷ gs) pool = pool_graphs gs (pool_edges g.edges (pool_nodes g.nodes pool))

  -- An edge whose ends are both nodes marks its entry and the mirrored one.
  unfoldable pub adjacency : Pool → List (List F)
  adjacency pool =
      map
        (λ a.
          map
            (λ b.
              if has_pair (a, b) pool.edge_pairs || has_pair (b, a) pool.edge_pairs
              then decimal 1 0
              else decimal 0 0)
            pool.pooled_nodes)
        pool.pooled_nodes

  abbrev pub graph_density : ℕ → ℕ → F
  graph_density nodes edges =
      if ltb nodes 2 then decimal 0 0 else div (decimal edges 0) (decimal (nodes * (nodes - 1)) 0)

  abbrev density : Pool → F
  density p = graph_density (length p.pooled_nodes) (length p.edge_pairs)

  unfoldable pub spectral_distance :
      (ℕ → List (List F) → List (List F) → F) → ℕ → List (List F) → List (List F) → F
  spectral_distance eigen k [] c = decimal 0 0
  spectral_distance eigen k (r ∷ b) [] = decimal 0 0
  spectral_distance eigen k (r ∷ b) (s ∷ c) = eigen k (r ∷ b) (s ∷ c)

  unfoldable pub compute_graph_drift :
      (ℕ → List (List F) → List (List F) → F)
      → GraphDriftCalculator F
      → List (GraphTopology F)
      → List (GraphTopology F)
      → GraphDrift F
  unfolding pool_graphs adjacency spectral_distance
  compute_graph_drift eigen calculator baseline current =
      let b = pool_graphs baseline empty_pool in
      let c = pool_graphs current empty_pool in
      let density_delta = sub (density c) (density b) in
      let distance = spectral_distance eigen calculator.spectral_k (adjacency b) (adjacency c) in
      record {
        spectral_distance = distance;
        density_delta = density_delta;
        node_count_delta =
            sub (decimal (length c.pooled_nodes) 0) (decimal (length b.pooled_nodes) 0);
        is_graph_drifted =
            lt calculator.spectral_threshold distance
            || lt calculator.density_threshold (abs density_delta);
      }
