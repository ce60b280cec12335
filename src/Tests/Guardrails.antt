-- ===== src/Tests/Guardrails.antt =====
-- The guardrail at a concrete action.
use post_rag_drift_evaluator.Prelude.{◌≡◌, ◌↔◌, ◌<◌, refl, true, false, some, [], ◌∷◌, All}
use post_rag_drift_evaluator.Result.{ok}
use post_rag_drift_evaluator.Float.Milli.{Milli, pos, milli}
use post_rag_drift_evaluator.Dict.{Dict}
use post_rag_drift_evaluator.Value.{Value, num, dict, end, field}
use post_rag_drift_evaluator.Models.Actions.{OptimizationAction}
use post_rag_drift_evaluator.Guardrails.{
  PolicyDecision, init, params_of, flapped_count, validate_action,
}
use post_rag_drift_evaluator.Guardrails.Verdict.{
  WithinBounds, HasCooled, NamesFirst, validate_action-allowed_iff, validate_action-first_rule,
}
use post_rag_drift_evaluator.Tests.Fixtures.{policy}

abbrev hot : OptimizationAction Milli
hot = record {
  action_type = "adjust_temperature";
  target_run_id = "r3";
  change_id = "c1";
  description = "";
  metadata = ("params", dict (field "temperature" (num (pos 1500)) end)) ∷ [];
}

abbrev hot_params : Dict (Value Milli)
hot_params = ("temperature", num (pos 1500)) ∷ []

hot-params : params_of hot ≡ ok hot_params
unfolding params_of
hot-params = refl

abbrev verdict : PolicyDecision
verdict = record {
  allowed = false;
  reason = "Parameter 'temperature'=1.500 is outside bounds [0.000, 1.000].";
  rule_violated = some "parameter_bounds";
}

hot-verdict : validate_action policy (pos 1000) (pos 1000) hot (hot ∷ []) ≡ ok verdict
unfolding validate_action init milli
hot-verdict = refl

validate_action-allowed_iff_example :
    (d : PolicyDecision) × (validate_action policy (pos 1000) (pos 1000) hot (hot ∷ []) ≡ ok d)
    × ((d.allowed ≡ true) ↔ (
        All (WithinBounds policy.parameter_bounds) hot_params
        × All (HasCooled policy.cooldown_period_s (pos 1000) hot) (hot ∷ [])
        × (flapped_count policy.flapping_window_s (pos 1000) "r3" (hot ∷ [])
            < policy.max_flapping_per_hour)))
validate_action-allowed_iff_example =
    validate_action-allowed_iff policy (pos 1000) (pos 1000) hot (hot ∷ []) hot_params hot-params

validate_action-first_rule_example :
    NamesFirst
      (All (WithinBounds policy.parameter_bounds) hot_params)
      (All (HasCooled policy.cooldown_period_s (pos 1000) hot) (hot ∷ []))
      (flapped_count policy.flapping_window_s (pos 1000) "r3" (hot ∷ [])
        < policy.max_flapping_per_hour)
      verdict
validate_action-first_rule_example =
    validate_action-first_rule policy (pos 1000) (pos 1000) hot (hot ∷ []) hot_params verdict
      hot-params hot-verdict refl
