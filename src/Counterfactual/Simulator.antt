-- ===== src/Counterfactual/Simulator.antt =====
-- evaluator/counterfactual/simulator.py. A store is the list of its records; the original one is
-- never written to, since every function returns the records of the clone.
pub mod Bare
pub mod Invariance
use post_rag_drift_evaluator.Prelude.{
  ℕ, String, Option, none, some, List, [], ◌∷◌, map, str_eq, if◌then◌else◌, sort_by, length,
}
use post_rag_drift_evaluator.Result.{Result, ok, err, type_error, ◌>>=◌}
use post_rag_drift_evaluator.Float.{Float, fmin}
use post_rag_drift_evaluator.Dict.{Dict, get, get_or, put}
use post_rag_drift_evaluator.Value.{
  Value, nothing, text, num, items, dict, Fields, end, field, entries, fields_of, merge, number?,
}
use post_rag_drift_evaluator.Models.Records.{DriftEvent, EvaluationRecord}
use post_rag_drift_evaluator.Models.Events.{ChangeEvent, CausalAttribution}
use post_rag_drift_evaluator.Models.Scenarios.{
  Intervention, CounterfactualScenario, CounterfactualResult,
}
use post_rag_drift_evaluator.Causal.Changes.{extract_change_events, by_time}
use post_rag_drift_evaluator.Counterfactual.Scenario.{text_items, build_counterfactual_scenarios}
use post_rag_drift_evaluator.Counterfactual.Estimator.{estimate_metric_after_intervention}
use mathlib.Core.List.{foldl}

module _ {F : Type 0} where
  -- A version as it is stored in the details: a text or `None`.
  unfoldable pub version_of : Value F → Option String
  version_of (text s) = some s
  version_of v = none

  unfoldable pub revert_version : Dict (Value F) → EvaluationRecord F → EvaluationRecord F
  unfolding get version_of
  revert_version details r = elim (get "old_system_version" details) [
    | none ↦ r
    | some v ↦ record r { system_version = version_of v }
  ]

  unfoldable pub revert_pipeline : Dict (Value F) → EvaluationRecord F → EvaluationRecord F
  unfolding get put
  revert_pipeline details r = elim (get "old_pipeline" details) [
    | none ↦ r
    | some v ↦ record r { metadata = put "pipeline_name" v r.metadata }
  ]

  -- `values.get("old")` of the two values of a changed field, which are a dictionary.
  unfoldable pub old_value : Value F → Value F
  unfolding entries get
  old_value (dict fs) = get_or "old" nothing (entries fs)
  old_value v = nothing

  -- `target[field_name] = values.get("old")` for each changed field.
  unfoldable pub write_old : Fields F → Dict (Value F) → Dict (Value F)
  unfolding old_value put
  write_old end target = target
  write_old (field name values rest) target = write_old rest (put name (old_value values) target)

  -- The write into `metadata["system_info"]`: only a dictionary takes an item.
  unfoldable pub write_info : Fields F → Value F → Result (Value F)
  unfolding write_old entries fields_of
  write_info end info = ok info
  write_info (field name values rest) (dict fs) =
      ok (dict (fields_of (write_old (field name values rest) (entries fs))))
  write_info (field name values rest) v = err type_error

  -- The value of a key that is there and a dictionary.
  unfoldable pub dict_at : String → Dict (Value F) → Option (Fields F)
  unfolding get
  dict_at k d = elim (get k d) [ some (dict fs) ↦ some fs | _ ↦ none ]

  unfoldable pub revert_info : Dict (Value F) → EvaluationRecord F → Result (EvaluationRecord F)
  unfolding get put write_info dict_at
  revert_info details r = elim (dict_at "system_info_diff" details) [
    | none ↦ ok r
    | some diff ↦ do
      info ← write_info diff (get_or "system_info" (dict end) r.metadata)
      ok (record r { metadata = put "system_info" info r.metadata })
  ]

  unfoldable pub revert_metadata : Dict (Value F) → EvaluationRecord F → EvaluationRecord F
  unfolding dict_at write_old
  revert_metadata details r = elim (dict_at "metadata_diff" details) [
    | none ↦ r
    | some diff ↦ record r { metadata = write_old diff r.metadata }
  ]

  unfoldable pub revert_change : EvaluationRecord F → Dict (Value F) → Result (EvaluationRecord F)
  unfolding revert_version revert_pipeline revert_info revert_metadata
  revert_change r details = do
    r' ← revert_info details (revert_pipeline details (revert_version details r))
    ok (revert_metadata details r')

  unfoldable pub apply_modify : EvaluationRecord F → Dict (Value F) → EvaluationRecord F
  unfolding merge
  apply_modify r override = record r { metadata = merge r.metadata override }

  -- What the intervention does to the record of the change; any other action does nothing.
  unfoldable pub intervene :
      Intervention F → ChangeEvent F → EvaluationRecord F → Result (EvaluationRecord F)
  unfolding revert_change apply_modify
  intervene i change r =
      if str_eq i.action "remove"
      then revert_change r change.details
      else if str_eq i.action "modify"
      then ok (apply_modify r i.override_metadata)
      else ok r

  -- The loop up to its `break`: only the first record of the run is touched.
  unfoldable pub update_first :
      String
      → (EvaluationRecord F → Result (EvaluationRecord F))
      → List (EvaluationRecord F)
      → Result (List (EvaluationRecord F))
  update_first run_id f [] = ok []
  update_first run_id f (r ∷ records) =
      let later = update_first run_id f records in
      if str_eq r.run_id run_id
      then (f r >>= λ r'. ok (r' ∷ records))
      else (later >>= λ rest. ok (r ∷ rest))

  unfoldable pub find_change : String → List (ChangeEvent F) → Option (ChangeEvent F)
  find_change id [] = none
  find_change id (c ∷ changes) = if str_eq c.change_id id then some c else find_change id changes

module _ {F : Type 0} ⦃fl : Float F⦄ where
  open fl use {decimal, sub, round}

  -- `i.metadata.get("factor_score", 0.0)`, which is a number wherever a scenario sets it.
  unfoldable pub factor_score : Intervention F → F
  unfolding get
  factor_score i = elim (number? (get_or "factor_score" (num (decimal 0 0)) i.metadata)) [
    | none ↦ decimal 0 0
    | some x ↦ x
  ]

  -- The score of the only intervention, or the least of all; 0.0 if there is none.
  unfoldable pub scenario_confidence : List (Intervention F) → F
  unfolding factor_score
  scenario_confidence [] = decimal 0 0
  scenario_confidence (i ∷ rest) = foldl fmin (factor_score i) (map factor_score rest)

  unfoldable pub result_of : String → F → CounterfactualScenario F → F → CounterfactualResult F
  unfolding scenario_confidence text_items
  result_of metric_name original_metric s cf_metric = record {
    original_metric = round 6 original_metric;
    counterfactual_metric = round 6 cf_metric;
    delta = round 6 (sub original_metric cf_metric);
    confidence = round 4 (scenario_confidence s.interventions);
    metadata =
        ("metric_name", text metric_name)
        ∷ ("num_interventions", num (decimal (length s.interventions) 0))
        ∷ ("scenario_description", text s.description)
        ∷ (
          "change_ids",
          items (text_items (map (λ (i : Intervention F). i.change_id) s.interventions)),
        )
        ∷ [];
  }

module _ {F : Type 0} ⦃fl : Float F⦄ (uuid5 : String → String) where
  open fl use {decimal}

  unfoldable pub apply_intervention :
      List (EvaluationRecord F) → Intervention F → Result (List (EvaluationRecord F))
  unfolding extract_change_events find_change intervene update_first sort_by
  apply_intervention records i =
      elim (find_change i.change_id (extract_change_events uuid5 records)) [
        | none ↦ ok records
        | some change ↦ update_first change.run_id (intervene i change) (by_time uuid5 records)
      ]

  -- Each intervention works on what the one before left.
  unfoldable pub apply_interventions :
      List (Intervention F) → List (EvaluationRecord F) → Result (List (EvaluationRecord F))
  unfolding apply_intervention
  apply_interventions [] records = ok records
  apply_interventions (i ∷ rest) records = do
    records' ← apply_intervention records i
    apply_interventions rest records'

  unfoldable pub apply_scenario :
      List (EvaluationRecord F) → CounterfactualScenario F → Result (List (EvaluationRecord F))
  unfolding apply_interventions
  apply_scenario records s = apply_interventions s.interventions records

  unfoldable pub simulate :
      DriftEvent F
      → List (EvaluationRecord F)
      → String
      → List (CounterfactualScenario F)
      → Result (List (CounterfactualResult F))
  unfolding apply_scenario estimate_metric_after_intervention result_of
  simulate e records metric_name [] = ok []
  simulate e records metric_name (s ∷ scenarios) = do
    modified ← apply_scenario records s
    let cf_metric =
        estimate_metric_after_intervention e modified metric_name "trend_adjusted" (decimal 3 1)
    results ← simulate e records metric_name scenarios
    ok (result_of metric_name e.magnitude s cf_metric ∷ results)

  -- Without a `metric_name` it is the attribution's.
  unfoldable pub run_counterfactual_analysis :
      DriftEvent F
      → CausalAttribution F
      → List (EvaluationRecord F)
      → Option String
      → ℕ
      → Result (List (CounterfactualResult F))
  unfolding simulate build_counterfactual_scenarios
  run_counterfactual_analysis e a records metric_name top_k =
      let name : String = elim metric_name [ none ↦ a.metric_name | some n ↦ n ] in
      simulate e records name (build_counterfactual_scenarios a top_k)
