-- ===== src/Causal/Fusion.antt =====
-- evaluator/causal/fusion.py: latent drift scores become failure priors of a causal graph. The
-- defaults of a graph that is not given are `default_graph` and the empty graph.
pub mod Priors
use post_rag_drift_evaluator.Prelude.{
  ℕ, String, Bool, Option, none, some, List, [], ◌∷◌, map, str_eq, if◌then◌else◌,
}
use post_rag_drift_evaluator.Float.{Float, fmin, fmax}
use post_rag_drift_evaluator.Dict.{Dict, put}
use post_rag_drift_evaluator.Value.{Value, num, text, Fields, end, field, dict, merge}
use post_rag_drift_evaluator.Latent.Models.{LatentDriftResult}

pub record CausalNode (F : Type 0) : Type 0 where
  pub node_id : String
  pub node_type : String
  pub prior_failure_prob : F
  pub description : String
  pub metadata : Dict (Value F)

pub record CausalGraph (F : Type 0) : Type 0 where
  pub nodes : List (CausalNode F)
  pub edges : List (String × String)
  pub metadata : Dict (Value F)

pub record CausalLatentFusionEngine (F : Type 0) : Type 0 where
  pub sensitivity : F
  pub default_nodes : Bool

module _ {F : Type 0} where
  find_node : String → List (CausalNode F) → Option (CausalNode F)
  find_node id [] = none
  find_node id (n ∷ nodes) = if str_eq n.node_id id then some n else find_node id nodes

  unfoldable pub get_node : CausalGraph F → String → Option (CausalNode F)
  unfolding find_node
  get_node g id = find_node id g.nodes

module _ {F : Type 0} ⦃fl : Float F⦄ where
  open fl use {decimal, mul, lt, round}

  unfoldable pub compute_failure_prob : F → F → F
  compute_failure_prob drift_score sensitivity =
      fmin (decimal 1 0) (fmax (decimal 0 0) (mul drift_score sensitivity))

  abbrev node : String → String → String → CausalNode F
  node id type description = record {
    node_id = id;
    node_type = type;
    prior_failure_prob = decimal 0 0;
    description = description;
    metadata = [];
  }

  unfoldable pub default_graph : CausalGraph F
  default_graph = record {
    nodes =
        node "vector_index" "retrieval" "Vector database / index quality"
        ∷ node "embedding_model" "retrieval" "Embedding model used for retrieval"
        ∷ node "prompt_template" "generation" "Prompt template for LLM generation"
        ∷ node "llm_router" "generation" "LLM routing and model selection"
        ∷ [];
    edges =
        ("vector_index", "embedding_model")
        ∷ ("embedding_model", "prompt_template")
        ∷ ("prompt_template", "llm_router")
        ∷ [];
    metadata = [];
  }

  -- The graph to start from.
  unfoldable pub start_graph : CausalLatentFusionEngine F → Option (CausalGraph F) → CausalGraph F
  unfolding default_graph
  start_graph engine none =
      if engine.default_nodes
      then default_graph
      else record { nodes = []; edges = []; metadata = [] }
  start_graph engine (some g) = g

  -- `metric_breakdown` if it has entries, else the main score under the result's track.
  unfoldable pub resolve_track_score : LatentDriftResult F → Dict F
  resolve_track_score r = elim r.metric_breakdown [
    | [] ↦ (r.track, r.drift_score) ∷ []
    | entry ∷ rest ↦ entry ∷ rest
  ]

  -- A node of the type takes the rounded probability if the probability is above its prior.
  unfoldable pub raise_prior : String → F → CausalNode F → CausalNode F
  raise_prior type prob n =
      if str_eq n.node_type type
      then (if lt n.prior_failure_prob prob
          then record n { prior_failure_prob = round 6 prob }
          else n)
      else n

  unfoldable pub raise_type : F → String → F → List (CausalNode F) → List (CausalNode F)
  unfolding compute_failure_prob raise_prior
  raise_type sensitivity type score nodes =
      map (raise_prior type (compute_failure_prob score sensitivity)) nodes

  -- The loop over `track_scores.items()`; the target type is the track's name in every branch.
  unfoldable pub raise_tracks : F → Dict F → List (CausalNode F) → List (CausalNode F)
  unfolding raise_type
  raise_tracks sensitivity [] nodes = nodes
  raise_tracks sensitivity ((track, score) ∷ scores) nodes =
      raise_tracks sensitivity scores (raise_type sensitivity track score nodes)

  unfoldable pub score_fields : Dict F → Fields F
  score_fields [] = end
  score_fields ((track, score) ∷ scores) = field track (num score) (score_fields scores)

  unfoldable pub fuse_drift_into_causal_graph :
      CausalLatentFusionEngine F → LatentDriftResult F → Option (CausalGraph F) → CausalGraph F
  unfolding start_graph resolve_track_score raise_tracks score_fields merge put
  fuse_drift_into_causal_graph engine result graph =
      let g = start_graph engine graph in
      let track_scores = resolve_track_score result in
      record {
        nodes = raise_tracks engine.sensitivity track_scores g.nodes;
        edges = g.edges;
        metadata = merge g.metadata (
            ("fusion_source", text "latent_drift")
            ∷ ("track_scores", dict (score_fields track_scores))
            ∷ ("sensitivity", num engine.sensitivity)
            ∷ []);
      }

  -- One track of `fuse_dual_track`; without a result nothing changes.
  unfoldable pub raise_result :
      F → String → Option (LatentDriftResult F) → List (CausalNode F) → List (CausalNode F)
  unfolding raise_type
  raise_result sensitivity type none nodes = nodes
  raise_result sensitivity type (some r) nodes = raise_type sensitivity type r.drift_score nodes

  abbrev score_or_zero : Option (LatentDriftResult F) → F
  score_or_zero none = decimal 0 0
  score_or_zero (some r) = r.drift_score

  unfoldable pub fuse_dual_track :
      CausalLatentFusionEngine F
      → Option (LatentDriftResult F)
      → Option (LatentDriftResult F)
      → Option (CausalGraph F)
      → CausalGraph F
  unfolding start_graph raise_result merge put
  fuse_dual_track engine retrieval generation graph =
      let g = start_graph engine graph in
      let s = engine.sensitivity in
      record {
        nodes =
            raise_result s "generation" generation (raise_result s "retrieval" retrieval g.nodes);
        edges = g.edges;
        metadata = merge g.metadata (
            ("fusion_source", text "dual_track_drift")
            ∷ ("retrieval_score", num (score_or_zero retrieval))
            ∷ ("generation_score", num (score_or_zero generation))
            ∷ ("sensitivity", num s)
            ∷ []);
      }
