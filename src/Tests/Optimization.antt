-- ===== src/Tests/Optimization.antt =====
-- The closed loop at concrete inputs.
use post_rag_drift_evaluator.Prelude.{
  ◌≡◌, ◌↔◌, refl, true, false, none, some, List, [], ◌∷◌, All, Perm,
}
use post_rag_drift_evaluator.Result.{Result, ok}
use post_rag_drift_evaluator.Float.{IsNum}
use post_rag_drift_evaluator.Float.Milli.{Milli, pos, milli, Milli-IsOrdered}
use post_rag_drift_evaluator.Dict.{get}
use post_rag_drift_evaluator.Models.Scenarios.{CounterfactualResult}
use post_rag_drift_evaluator.Models.Actions.{OptimizationAction}
use post_rag_drift_evaluator.Causal.Attribution.{attribute_drift}
use post_rag_drift_evaluator.Counterfactual.Simulator.{run_counterfactual_analysis}
use post_rag_drift_evaluator.Guardrails.{PolicyDecision, init, params_of, validate_action}
use post_rag_drift_evaluator.Optimization.Engine.{confident, track_of, action_for, select_action}
use post_rag_drift_evaluator.Optimization.Engine.Selection.{
  IsBest, select_action-none_iff, select_action-IsBest,
}
use post_rag_drift_evaluator.Optimization.Scorer.{score_actions}
use post_rag_drift_evaluator.Optimization.Scorer.Ranking.{actions_of, priorities_of, numbers_from}
use post_rag_drift_evaluator.Optimization.Scorer.Order.{
  IsMeasured, BestFirst, score_actions-ranking,
}
use post_rag_drift_evaluator.Optimization.Runner.{OptimizationResult, run_optimization_cycle}
use post_rag_drift_evaluator.Optimization.Runner.Cycle.{
  IsFresh, Outcome, run_optimization_cycle-Outcome,
}
use post_rag_drift_evaluator.Optimization.Runner.Totality.{run_optimization_cycle-returns}
use post_rag_drift_evaluator.Optimization.Runner.Guard.{
  history_with, conclude-blocks_for_ever, conclude-cools_down,
}
use post_rag_drift_evaluator.Tests.Fixtures.{
  id_of, shift_event, attribution, history, or_else, engine, policy, runner_with, readings_at,
  some_or,
}

abbrev results : List (CounterfactualResult Milli)
results = or_else [] (run_counterfactual_analysis id_of shift_event attribution history none 3)

results-ok : run_counterfactual_analysis id_of shift_event attribution history none 3 ≡ ok results
unfolding run_counterfactual_analysis attribute_drift milli
results-ok = refl

results-IsNum : All (λ r. IsNum r.delta) results
unfolding run_counterfactual_analysis attribute_drift milli
results-IsNum = (refl, tt)

abbrev loop :
    List (OptimizationAction Milli)
    → Milli
    → Result (List (OptimizationAction Milli) × OptimizationResult Milli)
loop past t =
    run_optimization_cycle id_of (runner_with past) (readings_at t) shift_event attribution history
      none none 3

abbrev blank : OptimizationAction Milli
blank = record {
  action_type = "";
  target_run_id = "";
  change_id = "";
  description = "";
  metadata = [];
}

-- The action that the engine selects.
abbrev chosen : OptimizationAction Milli
chosen = some_or blank (or_else none (select_action engine shift_event results))

chosen-ok : select_action engine shift_event results ≡ ok (some chosen)
unfolding select_action run_counterfactual_analysis attribute_drift milli
chosen-ok = refl

chosen-IsFresh : IsFresh chosen
unfolding select_action run_counterfactual_analysis attribute_drift milli get
chosen-IsFresh = record { not_executed = refl; no_params = refl }

chosen-params : params_of chosen ≡ ok []
unfolding select_action run_counterfactual_analysis attribute_drift milli params_of
chosen-params = refl

-- The history and the result of a first cycle.
abbrev first : List (OptimizationAction Milli) × OptimizationResult Milli
first = or_else ([], idle) (loop [] (pos 1000))
  where
    idle : OptimizationResult Milli
    idle = record {
      status = "";
      action = none;
      policy_decision = none;
      counterfactual_results = [];
      metadata = [];
    }

first-ok : loop [] (pos 1000) ≡ ok (first.0, first.1)
unfolding run_optimization_cycle attribute_drift milli init
first-ok = refl

first-approved : first.1.status ≡ "approved"
unfolding run_optimization_cycle attribute_drift milli init
first-approved = refl

run_optimization_cycle-Outcome_example :
    (rs : List (CounterfactualResult Milli)) × (run_counterfactual_analysis id_of shift_event
        attribution history none 3
      ≡ ok rs)
    × Outcome (runner_with []) (readings_at (pos 1000)) shift_event rs first.0 first.1
run_optimization_cycle-Outcome_example =
    run_optimization_cycle-Outcome id_of (runner_with []) (readings_at (pos 1000)) shift_event
      attribution history none none 3 first.0 first.1 first-ok

run_optimization_cycle-returns_example :
    (out : List (OptimizationAction Milli) × OptimizationResult Milli) × (loop first.0 (pos 2000)
      ≡ ok out)
run_optimization_cycle-returns_example =
    run_optimization_cycle-returns id_of (runner_with first.0) (readings_at (pos 2000)) shift_event
      attribution history none none 3 results results-ok

select_action-none_iff_example :
    (select_action engine shift_event results ≡ ok none)
    ↔ All (λ r. confident engine r ≡ false) results
select_action-none_iff_example = select_action-none_iff engine shift_event results

select_action-IsBest_example :
    (r : CounterfactualResult Milli) × IsBest engine results r
    × (action_for engine (track_of shift_event) r ≡ ok chosen)
select_action-IsBest_example =
    select_action-IsBest Milli-IsOrdered engine shift_event results chosen results-IsNum chosen-ok

abbrev ranked : List (OptimizationAction Milli)
ranked = blank ∷ chosen ∷ []

results-IsMeasured : All IsMeasured results
unfolding run_counterfactual_analysis attribute_drift milli
results-IsMeasured = ((refl, refl), tt)

score_actions-ranking_example :
    let recs = score_actions ranked results in
    Perm (actions_of recs) ranked × BestFirst recs × (priorities_of recs ≡ numbers_from 1 recs)
score_actions-ranking_example =
    score_actions-ranking Milli-IsOrdered ranked results results-IsMeasured

abbrev blocked : PolicyDecision
blocked = record { allowed = false; reason = ""; rule_violated = some "cooldown_period" }

abbrev allowed : PolicyDecision
allowed = record { allowed = true; reason = ""; rule_violated = none }

-- An hour and more later.
still_hot : milli.lt (milli.sub (pos 9000000) (pos 9000000)) policy.cooldown_period_s ≡ true
unfolding milli init
still_hot = refl

conclude-blocks_for_ever_example :
    (d : PolicyDecision) × (validate_action policy
        (pos 9000000)
        (pos 9000000)
        chosen
        (history_with (runner_with []) (readings_at (pos 1000)) [] results chosen blocked [])
      ≡ ok d)
    × (d.allowed ≡ false)
conclude-blocks_for_ever_example =
    conclude-blocks_for_ever (runner_with []) (readings_at (pos 1000)) [] results chosen blocked
      chosen-IsFresh refl policy (pos 9000000) (pos 9000000) chosen [] chosen-params refl still_hot

within_cooldown : milli.lt (milli.sub (pos 9000) (pos 1000)) policy.cooldown_period_s ≡ true
unfolding milli init
within_cooldown = refl

conclude-cools_down_example :
    (d : PolicyDecision) × (validate_action policy
        (pos 9000)
        (pos 9000)
        chosen
        (history_with (runner_with []) (readings_at (pos 1000)) [] results chosen allowed [])
      ≡ ok d)
    × (d.allowed ≡ false)
conclude-cools_down_example =
    conclude-cools_down (runner_with []) (readings_at (pos 1000)) [] results chosen allowed refl
      policy (pos 9000) (pos 9000) chosen [] chosen-params refl within_cooldown
