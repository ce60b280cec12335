-- ===== src/Tests/Fixtures.antt =====
-- Inputs that the tests share.
use post_rag_drift_evaluator.Prelude.{String, Option, none, some, List, [], ◌∷◌, false}
use post_rag_drift_evaluator.Result.{Result, ok, err}
use post_rag_drift_evaluator.Float.Milli.{Milli, pos, milli}
use post_rag_drift_evaluator.Models.Records.{plain, EvaluationRecord, DriftEvent}
use post_rag_drift_evaluator.Models.Events.{CausalAttribution}
use post_rag_drift_evaluator.Causal.Attribution.{attribute_drift}
use post_rag_drift_evaluator.Causal.Fusion.{CausalLatentFusionEngine}
use post_rag_drift_evaluator.Optimization.Engine.{OptimizationEngine}
use post_rag_drift_evaluator.Guardrails.{PolicyEvaluator, default_policy}
use post_rag_drift_evaluator.Models.Actions.{OptimizationAction}
use post_rag_drift_evaluator.Optimization.Runner.{OptimizationRunner, Readings}

-- In place of `uuid5`.
abbrev pub id_of : String → String
id_of s = s

-- A record of one run with one metric.
abbrev pub record_of : String → String → Milli → Milli → EvaluationRecord Milli
record_of run version time value = record {
  run_id = run;
  metrics = record { metric_name = "drift"; value = value; metadata = []; kind = plain } ∷ [];
  metadata = [];
  system_version = some version;
  timestamp = some time;
}

-- A release between the second run and the third moves the metric.
abbrev pub history : List (EvaluationRecord Milli)
history =
    record_of "r1" "v1" (pos 1000) (pos 100)
    ∷ record_of "r2" "v1" (pos 2000) (pos 100)
    ∷ record_of "r3" "v2" (pos 3000) (pos 900)
    ∷ []

abbrev pub shift_event : DriftEvent Milli
shift_event = record {
  metric_name = "drift";
  start_timestamp = pos 3000;
  end_timestamp = pos 3000;
  magnitude = pos 800;
  involved_run_ids = "r3" ∷ [];
  metadata = [];
  event_id = "e1";
}

abbrev pub attribution : CausalAttribution Milli
attribution = attribute_drift id_of shift_event history

abbrev pub engine : OptimizationEngine Milli
engine = record { min_confidence = pos 100; default_action_type = "rollback_config" }

abbrev pub fusion : CausalLatentFusionEngine Milli
fusion = record { sensitivity = pos 1000; default_nodes = false }

abbrev pub policy : PolicyEvaluator Milli
policy = default_policy

abbrev pub runner_with : List (OptimizationAction Milli) → OptimizationRunner Milli
runner_with past = record {
  engine = engine;
  policy_evaluator = policy;
  execution_history = past;
  fusion_engine = fusion;
}

abbrev pub readings_at : Milli → Readings Milli
readings_at t = record { start = t; cooldown = t; flapping = t; executed = t; finish = t }

abbrev pub or_else : {A : Type 0} → A → Result A → A
or_else fallback (ok a) = a
or_else fallback (err e) = fallback

abbrev pub some_or : {A : Type 0} → A → Option A → A
some_or fallback none = fallback
some_or fallback (some a) = a
