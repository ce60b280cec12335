-- ===== src/Stored/Interventions.antt =====
-- evaluator/counterfactual/models.py: `Intervention`, `CounterfactualScenario` and
-- `CounterfactualResult` as dictionaries. An identifier is `None` until `__post_init__` draws one.
use post_rag_drift_evaluator.Prelude.{String, Option, none, List, [], ◌∷◌, map, ◌≡◌, refl}
use post_rag_drift_evaluator.Dict.{Dict, get}
use post_rag_drift_evaluator.Value.{Value, num, text, items, dict_of, entries, fields_of}
use post_rag_drift_evaluator.Models.Scenarios.{Intervention, CounterfactualResult}
use post_rag_drift_evaluator.Stored.Readers.{
  Loaded, loaded, ◌>>=◌, as_text, as_num, as_dict, as_list, as_optional, load, load_or,
  optional_text, items_of, load_all, entries-fields_of, load_all-map, optional_round_trip,
}

pub record StoredIntervention (F : Type 0) : Type 0 where
  pub intervention_id : Option String
  pub intervention : Intervention F

-- `CounterfactualScenario` with the identifiers.
pub record StoredScenario (F : Type 0) : Type 0 where
  pub scenario_id : Option String
  pub drift_event_id : String
  pub interventions : List (StoredIntervention F)
  pub description : String

-- `CounterfactualResult` with the identifiers.
pub record StoredResult (F : Type 0) : Type 0 where
  pub result_id : Option String
  pub scenario_id : String
  pub result : CounterfactualResult F

module _ {F : Type 0} where
  unfoldable pub dict_of_intervention : StoredIntervention F → Dict (Value F)
  dict_of_intervention s =
      ("intervention_id", optional_text s.intervention_id)
      ∷ ("change_id", text s.intervention.change_id)
      ∷ ("action", text s.intervention.action)
      ∷ ("override_metadata", dict_of s.intervention.override_metadata)
      ∷ ("metadata", dict_of s.intervention.metadata)
      ∷ []

  unfoldable pub intervention_of_dict : Dict (Value F) → Loaded (StoredIntervention F)
  unfolding get
  intervention_of_dict d = do
    id ← load_or (as_optional as_text) none "intervention_id" d
    change_id ← load_or as_text "" "change_id" d
    action ← load_or as_text "remove" "action" d
    override_metadata ← load_or as_dict [] "override_metadata" d
    metadata ← load_or as_dict [] "metadata" d
    loaded (record {
      intervention_id = id;
      intervention = record {
        action = action;
        change_id = change_id;
        override_metadata = override_metadata;
        metadata = metadata;
      };
    })

  abbrev intervention_value : StoredIntervention F → Value F
  intervention_value s = dict_of (dict_of_intervention s)

  abbrev intervention_of_value : Value F → Loaded (StoredIntervention F)
  intervention_of_value v = do d ← as_dict v; intervention_of_dict d

  intervention_round_trip :
      (s : StoredIntervention F) → intervention_of_value (intervention_value s) ≡ loaded s
  unfolding intervention_of_dict dict_of_intervention entries fields_of
  intervention_round_trip s =
      rw
        (
          optional_round_trip F s.intervention_id,
          entries-fields_of s.intervention.override_metadata,
          entries-fields_of s.intervention.metadata,
        )
        refl

  unfoldable pub dict_of_scenario : StoredScenario F → Dict (Value F)
  unfolding dict_of_intervention items_of
  dict_of_scenario s =
      ("scenario_id", optional_text s.scenario_id)
      ∷ ("drift_event_id", text s.drift_event_id)
      ∷ ("interventions", items (items_of (map intervention_value s.interventions)))
      ∷ ("description", text s.description)
      ∷ []

  unfoldable pub scenario_of_dict : Dict (Value F) → Loaded (StoredScenario F)
  unfolding get load_all intervention_of_dict
  scenario_of_dict d = do
    id ← load_or (as_optional as_text) none "scenario_id" d
    drift_event_id ← load as_text "drift_event_id" d
    interventions ← load_or (as_list intervention_of_value) [] "interventions" d
    description ← load_or as_text "" "description" d
    loaded (record {
      scenario_id = id;
      drift_event_id = drift_event_id;
      interventions = interventions;
      description = description;
    })

  -- Reading what `to_dict` of a scenario wrote gives the scenario back, with its interventions in
  -- their order and every identifier.
  pub scenario_of_dict-dict_of_scenario :
      (s : StoredScenario F) → scenario_of_dict (dict_of_scenario s) ≡ loaded s
  unfolding scenario_of_dict dict_of_scenario
  scenario_of_dict-dict_of_scenario s =
      rw
        (
          load_all-map intervention_of_value intervention_value intervention_round_trip
              s.interventions,
          optional_round_trip F s.scenario_id,
        )
        refl

  unfoldable pub dict_of_result : StoredResult F → Dict (Value F)
  dict_of_result r =
      ("result_id", optional_text r.result_id)
      ∷ ("scenario_id", text r.scenario_id)
      ∷ ("original_metric", num r.result.original_metric)
      ∷ ("counterfactual_metric", num r.result.counterfactual_metric)
      ∷ ("delta", num r.result.delta)
      ∷ ("confidence", num r.result.confidence)
      ∷ ("metadata", dict_of r.result.metadata)
      ∷ []

  unfoldable pub result_of_dict : Dict (Value F) → Loaded (StoredResult F)
  unfolding get
  result_of_dict d = do
    id ← load_or (as_optional as_text) none "result_id" d
    scenario_id ← load as_text "scenario_id" d
    original ← load as_num "original_metric" d
    counterfactual ← load as_num "counterfactual_metric" d
    delta ← load as_num "delta" d
    confidence ← load as_num "confidence" d
    metadata ← load_or as_dict [] "metadata" d
    loaded (record {
      result_id = id;
      scenario_id = scenario_id;
      result = record {
        original_metric = original;
        counterfactual_metric = counterfactual;
        delta = delta;
        confidence = confidence;
        metadata = metadata;
      };
    })

  pub result_of_dict-dict_of_result :
      (r : StoredResult F) → result_of_dict (dict_of_result r) ≡ loaded r
  unfolding result_of_dict dict_of_result
  result_of_dict-dict_of_result r =
      rw (optional_round_trip F r.result_id, entries-fields_of r.result.metadata) refl
