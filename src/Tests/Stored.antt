-- ===== src/Tests/Stored.antt =====
-- Dictionaries of the data model, at concrete inputs.
use post_rag_drift_evaluator.Prelude.{◌≡◌, refl, none, some, [], ◌∷◌}
use post_rag_drift_evaluator.Float.Milli.{Milli, pos}
use post_rag_drift_evaluator.Value.{text, num, nothing}
use post_rag_drift_evaluator.Result.{key_error, type_error}
use post_rag_drift_evaluator.Models.Records.{EvaluationRecord, drift, quality}
use post_rag_drift_evaluator.Stored.Readers.{loaded, raised}
use post_rag_drift_evaluator.Stored.Metrics.{metric_of_dict}
use post_rag_drift_evaluator.Stored.Records.{
  Identified, post_init, dict_of_record, record_of_dict, event_of_dict,
  record_of_dict-dict_of_record,
}
use post_rag_drift_evaluator.Stored.Optimizations.{
  StoredPlan, dict_of_plan, plan_of_dict, plan_of_dict-dict_of_plan,
}

-- A record with two metrics, one of each subclass, and no identifier or time yet.
abbrev unsaved : Identified (EvaluationRecord Milli)
unsaved = record {
  record_id = none;
  content = record {
    run_id = "r1";
    metrics =
        record {
          metric_name = "jsd";
          value = pos 250;
          metadata = ("threshold", num (pos 200)) ∷ [];
          kind = drift (some "base") none;
        }
        ∷ record {
          metric_name = "faithfulness";
          value = pos 900;
          metadata = [];
          kind = quality (some "r1");
        }
        ∷ [];
    metadata = ("model", text "m1") ∷ [];
    system_version = some "v1";
    timestamp = none;
  };
}

record_of_dict-dict_of_record_example :
    record_of_dict "b" (pos 9) (dict_of_record (post_init "a" (pos 5) unsaved))
    ≡ loaded (post_init "a" (pos 5) unsaved)
record_of_dict-dict_of_record_example =
    record_of_dict-dict_of_record "a" "b" (pos 5) (pos 9) unsaved

-- A field that the class does not have, and an event without its metric.
unknown_field :
    metric_of_dict {F = Milli}
      (("metric_name", text "m") ∷ ("value", num (pos 1)) ∷ ("run_id", text "r") ∷ [])
    ≡ raised type_error
unfolding metric_of_dict
unknown_field = refl

unnamed_event :
    event_of_dict {F = Milli} "id" (("start_timestamp", num (pos 1)) ∷ []) ≡ raised key_error
unfolding event_of_dict
unnamed_event = refl

abbrev plan : StoredPlan Milli
plan = record {
  plan_id = "p1";
  drift_event_id = "e1";
  recommendations =
      record {
        recommendation_id = "n1";
        action = record {
          action_id = "a1";
          action = record {
            action_type = "revert_model";
            target_run_id = "r1";
            change_id = "c1";
            description = "undo the update";
            metadata = [];
          };
        };
        expected_improvement = pos 300;
        confidence = pos 800;
        priority = pos 1000;
        metadata = [];
      }
      ∷ [];
  summary = "revert";
  metadata = [];
}

plan_of_dict-dict_of_plan_example :
    plan_of_dict (λ i. "new") 0 (dict_of_plan plan) ≡ loaded (plan, 0)
plan_of_dict-dict_of_plan_example = plan_of_dict-dict_of_plan (λ i. "new") 0 plan

-- A plan without an identifier gets one.
unnamed_plan :
    plan_of_dict {F = Milli}
      (λ i. "new")
      0
      (("plan_id", nothing) ∷ ("drift_event_id", text "e1") ∷ [])
    ≡ loaded (
      record {
        plan_id = "new";
        drift_event_id = "e1";
        recommendations = [];
        summary = "";
        metadata = [];
      },
      1,
    )
unfolding plan_of_dict
unnamed_plan = refl
