-- ===== src/Optimization/Engine.antt =====
-- evaluator/optimization/engine.py: `OptimizationEngine`.
pub mod Selection
use Prim.Native.String
use post_rag_drift_evaluator.Prelude.{
  String, Bool, true, false, Option, none, some, List, [], ◌∷◌, concat, str_eq, keep, if◌then◌else◌,
  sort_by,
}
use post_rag_drift_evaluator.Result.{Result, ok, err, type_error, key_error, ◌>>=◌}
use post_rag_drift_evaluator.Float.{Float}
use post_rag_drift_evaluator.Dict.{get, get_or}
use post_rag_drift_evaluator.Value.{
  Value, nothing, flag, num, text, items, dict, nil, cons, end, field, str_value,
}
use post_rag_drift_evaluator.Models.Records.{DriftEvent}
use post_rag_drift_evaluator.Models.Scenarios.{CounterfactualResult}
use post_rag_drift_evaluator.Models.Actions.{OptimizationAction}

pub record OptimizationEngine (F : Type 0) : Type 0 where
  pub min_confidence : F
  pub default_action_type : String

-- A value is the given text.
unfoldable pub is_text : {F : Type 0} → String → Value F → Bool
is_text s (text t) = str_eq t s
is_text s v = false

module _ {F : Type 0} ⦃fl : Float F⦄ where
  open fl use {decimal, lt, le, feq, format}

  -- `track = drift_event.metadata.get("track", "unified")`
  unfoldable pub track_of : DriftEvent F → Value F
  unfolding get
  track_of e = get_or "track" (text "unified") e.metadata

  unfoldable pub confident : OptimizationEngine F → CounterfactualResult F → Bool
  confident engine r = le engine.min_confidence r.confidence

  unfoldable pub select_action_type : OptimizationEngine F → Value F → String
  unfolding is_text
  select_action_type engine track =
      if is_text "retrieval" track
      then "adjust_top_k"
      else if is_text "generation" track
      then "adjust_temperature"
      else engine.default_action_type

  unfoldable pub build_description : Value F → CounterfactualResult F → String
  unfolding is_text
  build_description track r =
      let improvement = format 4 r.delta in
      if is_text "retrieval" track
      then concat (
          "Adjust retrieval parameters to reduce drift (expected improvement: " ∷ improvement ∷ ")"
          ∷ [])
      else if is_text "generation" track
      then concat (
          "Adjust generation parameters to reduce drift (expected improvement: " ∷ improvement ∷ ")"
          ∷ [])
      else concat (
          "Rollback configuration to reduce drift (expected improvement: " ∷ improvement ∷ ")" ∷ [])

  -- `str(ids[0])` if the value is there and true, else the empty text.
  unfoldable pub first_change_id : Value F → Result String
  unfolding str_value
  first_change_id nothing = ok ""
  first_change_id (flag false) = ok ""
  first_change_id (flag true) = err type_error
  first_change_id (num x) = if feq x (decimal 0 0) then ok "" else err type_error
  first_change_id (text String.[]) = ok ""
  first_change_id (text (String.◌∷◌ c s)) = ok (String.◌∷◌ c String.[])
  first_change_id (items nil) = ok ""
  first_change_id (items (cons v rest)) = ok (str_value v)
  first_change_id (dict end) = ok ""
  first_change_id (dict (field k v rest)) = err key_error

  -- The action for one result; a `run_id` that is no text is turned into one.
  unfoldable pub action_for :
      OptimizationEngine F → Value F → CounterfactualResult F → Result (OptimizationAction F)
  unfolding select_action_type build_description first_change_id get str_value
  action_for engine track r = do
    change_id ← first_change_id (get_or "change_ids" nothing r.metadata)
    ok (record {
      action_type = select_action_type engine track;
      target_run_id = str_value (get_or "run_id" (text "") r.metadata);
      change_id = change_id;
      description = build_description track r;
      metadata =
          ("counterfactual_delta", num r.delta)
          ∷ ("counterfactual_confidence", num r.confidence)
          ∷ ("track", track)
          ∷ ("source", text "optimization_engine")
          ∷ [];
    })

  -- `max(results, key=lambda r: r.delta)`: the first of the greatest.
  unfoldable pub best_of :
      CounterfactualResult F → List (CounterfactualResult F) → CounterfactualResult F
  best_of best [] = best
  best_of best (r ∷ results) = best_of (if lt best.delta r.delta then r else best) results

  unfoldable pub select_best :
      OptimizationEngine F
      → Value F
      → List (CounterfactualResult F)
      → Result (Option (OptimizationAction F))
  unfolding best_of action_for
  select_best engine track [] = ok none
  select_best engine track (r ∷ results) = do
    action ← action_for engine track (best_of r results)
    ok (some action)

  unfoldable pub select_action :
      OptimizationEngine F
      → DriftEvent F
      → List (CounterfactualResult F)
      → Result (Option (OptimizationAction F))
  unfolding track_of confident select_best
  select_action engine e results = select_best engine (track_of e) (keep (confident engine) results)

  unfoldable pub actions_for :
      OptimizationEngine F
      → Value F
      → List (CounterfactualResult F)
      → Result (List (OptimizationAction F))
  unfolding action_for
  actions_for engine track [] = ok []
  actions_for engine track (r ∷ results) = do
    action ← action_for engine track r
    actions ← actions_for engine track results
    ok (action ∷ actions)

  -- `sorted(..., key=lambda r: r.delta, reverse=True)`
  abbrev pub by_delta : CounterfactualResult F → CounterfactualResult F → Bool
  by_delta r s = lt s.delta r.delta

  unfoldable pub generate_plan :
      OptimizationEngine F
      → DriftEvent F
      → List (CounterfactualResult F)
      → Result (List (OptimizationAction F))
  unfolding track_of confident actions_for sort_by
  generate_plan engine e results =
      actions_for engine (track_of e) (sort_by by_delta (keep (confident engine) results))
