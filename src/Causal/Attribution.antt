-- ===== src/Causal/Attribution.antt =====
-- evaluator/causal/attribution.py.
pub mod Scores
use mathlib.Core.List.{foldl}
use post_rag_drift_evaluator.Prelude.{
  String, Bool, List, [], ◌∷◌, map, if◌then◌else◌, sort_by, length,
}
use post_rag_drift_evaluator.Float.{Float, fmin, fmax}
use post_rag_drift_evaluator.Dict.{Dict}
use post_rag_drift_evaluator.Value.{Value, flag, num, text, dict_of}
use post_rag_drift_evaluator.Models.Records.{DriftEvent, EvaluationRecord}
use post_rag_drift_evaluator.Models.Events.{ChangeEvent, CausalFactor, CausalAttribution}
use post_rag_drift_evaluator.Causal.Changes.{extract_change_events}
use post_rag_drift_evaluator.Causal.Features.{Feature, build_drift_features}
use post_rag_drift_evaluator.Latent.Adaptive.{sum}

module _ {F : Type 0} ⦃fl : Float F⦄ where
  open fl use {decimal, add, sub, mul, div, lt, feq, round}

  -- `max` over a list that starts with the given item: a later one wins only if it is greater.
  abbrev pub max_of : F → List F → F
  max_of = foldl fmax

  unfoldable pub time_score : F → Feature F → F
  time_score max_delta f =
      let near =
        if lt (decimal 0 0) max_delta
        then sub (decimal 1 0) (div f.time_delta max_delta)
        else decimal 1 0 in
      if f.in_window then add (mul near (decimal 5 1)) (decimal 5 1) else near

  unfoldable pub magnitude_score : F → Feature F → F
  magnitude_score max_magnitude f =
      if lt (decimal 0 0) max_magnitude then div f.drift_magnitude max_magnitude else decimal 0 0

  -- The weighted composite, before it is clamped and rounded.
  unfoldable pub raw_score : F → F → Feature F → F
  unfolding time_score magnitude_score
  raw_score max_delta max_magnitude f =
      add
        (add (mul (decimal 4 1) (time_score max_delta f)) (mul (decimal 3 1) f.change_type_weight))
        (mul (decimal 3 1) (magnitude_score max_magnitude f))

  unfoldable pub factor_of : F → F → Feature F → CausalFactor F
  unfolding raw_score
  factor_of max_delta max_magnitude f = record {
    factor_name = f.change_type;
    score = round 4 (fmax (decimal 0 0) (fmin (decimal 1 0) (raw_score max_delta max_magnitude f)));
    related_run_ids = f.run_id ∷ [];
    metadata =
        ("change_id", text f.change_id)
        ∷ ("time_delta", num f.time_delta)
        ∷ ("in_window", flag f.in_window)
        ∷ ("change_details", dict_of f.details)
        ∷ [];
  }

  -- `sort(key=lambda f: f.score, reverse=True)`: a higher score comes before a lower one.
  abbrev pub by_score : CausalFactor F → CausalFactor F → Bool
  by_score f g = lt g.score f.score

  unfoldable pub score_causal_impact : List (Feature F) → List (CausalFactor F)
  unfolding factor_of sort_by
  score_causal_impact [] = []
  score_causal_impact (f ∷ features) =
      let max_delta = max_of f.time_delta (map (λ (g : Feature F). g.time_delta) features) in
      let max_magnitude =
        max_of f.drift_magnitude (map (λ (g : Feature F). g.drift_magnitude) features) in
      sort_by by_score (map (factor_of max_delta max_magnitude) (f ∷ features))

  unfoldable pub compute_confidence : List (CausalFactor F) → F
  unfolding sum
  compute_confidence [] = decimal 0 0
  compute_confidence (f ∷ []) = round 4 f.score
  compute_confidence (f ∷ g ∷ factors) =
      let total = sum (map (λ (h : CausalFactor F). h.score) (f ∷ g ∷ factors)) in
      if feq total (decimal 0 0) then decimal 0 0 else round 4 (div f.score total)

  -- The records are `store.load_all()`.
  unfoldable pub attribute_drift :
      (String → String) → DriftEvent F → List (EvaluationRecord F) → CausalAttribution F
  unfolding extract_change_events build_drift_features score_causal_impact compute_confidence
  attribute_drift uuid5 e records =
      let changes = extract_change_events uuid5 records in
      let factors = score_causal_impact (build_drift_features e changes) in
      record {
        drift_event_id = e.event_id;
        metric_name = e.metric_name;
        factors = factors;
        confidence = compute_confidence factors;
        metadata =
            ("num_changes_examined", num (decimal (length changes) 0))
            ∷ ("num_factors", num (decimal (length factors) 0))
            ∷ ("scoring_method", text "heuristic_weighted_composite")
            ∷ [];
      }
