-- ===== src/Tests/Causal.antt =====
-- Scores and priors at concrete inputs.
use post_rag_drift_evaluator.Prelude.{
  ◌≡◌, refl, subst, arith, none, some, List, [], ◌∷◌, All, Sorted, length, map, true,
}
use post_rag_drift_evaluator.Float.Milli.{Milli, nan, pos, milli, Milli-IsOrdered}
use post_rag_drift_evaluator.Dict.{Dict, get}
use post_rag_drift_evaluator.Latent.Models.{LatentDriftResult}
use post_rag_drift_evaluator.Causal.Changes.{extract_change_events}
use post_rag_drift_evaluator.Causal.Features.{Feature, build_drift_features}
use post_rag_drift_evaluator.Causal.Attribution.{by_score, score_causal_impact}
use post_rag_drift_evaluator.Causal.Attribution.Scores.{ScoreInUnit, score_causal_impact-ranked}
use post_rag_drift_evaluator.Causal.Fusion.{
  CausalNode, CausalGraph, raise_tracks, fuse_drift_into_causal_graph, fuse_dual_track,
}
use post_rag_drift_evaluator.Causal.Fusion.Priors.{
  IsProbable, raise_by, Distinct, fuse-IsProbable, raise_tracks-eq-raise_by,
}
use post_rag_drift_evaluator.Tests.Fixtures.{id_of, shift_event, history, fusion}

abbrev features : List (Feature Milli)
features = build_drift_features shift_event (extract_change_events id_of history)

score_causal_impact-ranked_example :
    (length (score_causal_impact features) ≡ length features)
    × All ScoreInUnit (score_causal_impact features)
    × Sorted by_score (score_causal_impact features)
score_causal_impact-ranked_example = score_causal_impact-ranked Milli-IsOrdered features

abbrev index_node : CausalNode Milli
index_node = record {
  node_id = "vector_index";
  node_type = "retrieval";
  prior_failure_prob = pos 200;
  description = "";
  metadata = [];
}

abbrev graph : CausalGraph Milli
graph = record { nodes = index_node ∷ []; edges = []; metadata = [] }

abbrev scores : Dict Milli
scores = ("retrieval", pos 700) ∷ ("generation", nan) ∷ []

abbrev latent : LatentDriftResult Milli
latent = record {
  drift_score = pos 700;
  drift_detected = true;
  threshold = pos 150;
  n_samples_baseline = 10;
  n_samples_current = 10;
  metric_used = "mmd";
  track = "retrieval";
  metric_breakdown = scores;
  metadata = [];
}

graph-IsProbable : (g : CausalGraph Milli) → some graph ≡ some g → All IsProbable g.nodes
unfolding milli
graph-IsProbable g e =
    let same : graph ≡ g = ground (arith, e) in
    subst (λ h. All IsProbable h.nodes) same ((refl, refl), tt)

fuse-IsProbable_example :
    All IsProbable (fuse_drift_into_causal_graph fusion latent (some graph)).nodes
    × All IsProbable (fuse_dual_track fusion (some latent) none (some graph)).nodes
fuse-IsProbable_example =
    fuse-IsProbable Milli-IsOrdered fusion (some graph) latent (some latent) none graph-IsProbable

scores-Distinct : Distinct scores
unfolding get
scores-Distinct = (refl, (refl, tt))

raise_tracks-eq-raise_by_example :
    raise_tracks (pos 1000) scores graph.nodes ≡ map (raise_by (pos 1000) scores) graph.nodes
raise_tracks-eq-raise_by_example =
    raise_tracks-eq-raise_by (pos 1000) scores graph.nodes scores-Distinct
