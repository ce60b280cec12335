-- ===== src/Optimization/Runner.antt =====
-- evaluator/optimization/runner.py: `OptimizationRunner`. A cycle returns the new execution history
-- beside its result. The readings of `time.time()` are arguments. Every exception is raised before
-- the history is written to.
pub mod Cycle
pub mod Guard
pub mod Totality
use post_rag_drift_evaluator.Prelude.{
  ℕ, String, Bool, true, Option, none, some, List, [], ◌∷◌, ◌++◌, map, if◌then◌else◌, length,
}
use post_rag_drift_evaluator.Result.{Result, ok, ◌>>=◌}
use post_rag_drift_evaluator.Float.{Float}
use post_rag_drift_evaluator.Dict.{Dict, put}
use post_rag_drift_evaluator.Value.{
  Value, nothing, flag, num, text, dict, Fields, end, field, merge, dict_of, fields_of,
}
use post_rag_drift_evaluator.Models.Records.{DriftEvent, EvaluationRecord}
use post_rag_drift_evaluator.Models.Events.{CausalAttribution}
use post_rag_drift_evaluator.Models.Scenarios.{CounterfactualResult}
use post_rag_drift_evaluator.Models.Actions.{OptimizationAction}
use post_rag_drift_evaluator.Latent.Models.{LatentDriftResult}
use post_rag_drift_evaluator.Causal.Fusion.{
  CausalNode, CausalGraph, CausalLatentFusionEngine, fuse_drift_into_causal_graph,
}
use post_rag_drift_evaluator.Counterfactual.Simulator.{run_counterfactual_analysis}
use post_rag_drift_evaluator.Optimization.Engine.{OptimizationEngine, select_action}
use post_rag_drift_evaluator.Guardrails.{PolicyDecision, PolicyEvaluator, validate_action}

abbrev pub status_approved : String
status_approved = "approved"

abbrev pub status_blocked_by_guardrail : String
status_blocked_by_guardrail = "blocked_by_guardrail"

abbrev pub status_no_action_needed : String
status_no_action_needed = "no_action_needed"

pub record OptimizationResult (F : Type 0) : Type 0 where
  pub status : String
  pub action : Option (OptimizationAction F)
  pub policy_decision : Option PolicyDecision
  pub counterfactual_results : List (CounterfactualResult F)
  pub metadata : Dict (Value F)

pub record OptimizationRunner (F : Type 0) : Type 0 where
  pub engine : OptimizationEngine F
  pub policy_evaluator : PolicyEvaluator F
  pub execution_history : List (OptimizationAction F)
  pub fusion_engine : CausalLatentFusionEngine F

-- What `time.time()` returns in one cycle: at the start, in the two checks of the guardrail, when an
-- approved action is stamped, and at the end.
pub record Readings (F : Type 0) : Type 0 where
  pub start : F
  pub cooldown : F
  pub flapping : F
  pub executed : F
  pub finish : F

module _ {F : Type 0} ⦃fl : Float F⦄ where
  open fl use {decimal, sub, mul, round}

  unfoldable pub cycle_time_ms : Readings F → Value F
  cycle_time_ms t = num (round 2 (mul (sub t.finish t.start) (decimal 1000 0)))

  -- {n.node_id: n.prior_failure_prob for n in nodes}
  unfoldable pub node_priors : List (CausalNode F) → Dict (Value F) → Dict (Value F)
  unfolding put
  node_priors [] d = d
  node_priors (n ∷ nodes) d = node_priors nodes (put n.node_id (num n.prior_failure_prob) d)

  unfoldable pub fusion_metadata :
      CausalLatentFusionEngine F
      → Option (CausalGraph F)
      → Option (LatentDriftResult F)
      → Dict (Value F)
  unfolding fuse_drift_into_causal_graph node_priors fields_of
  fusion_metadata fusion (some graph) (some latent) =
      let fused = fuse_drift_into_causal_graph fusion latent (some graph) in
      ("fusion_applied", flag true)
      ∷ ("graph_nodes", num (decimal (length fused.nodes) 0))
      ∷ ("node_priors", dict_of (node_priors fused.nodes []))
      ∷ []
  fusion_metadata fusion _ _ = []

  no_action : String → Dict (Value F) → List (CounterfactualResult F) → OptimizationResult F
  no_action reason more results = record {
    status = status_no_action_needed;
    action = none;
    policy_decision = none;
    counterfactual_results = results;
    metadata = ("reason", text reason) ∷ more;
  }

  -- `rule_violated` as a value.
  abbrev rule_value : Option String → Value F
  rule_value none = nothing
  rule_value (some rule) = text rule

  -- The action with the guardrail's verdict in its metadata.
  unfoldable pub tagged_action : PolicyDecision → OptimizationAction F → OptimizationAction F
  unfolding merge put
  tagged_action d a = record a {
    metadata = merge a.metadata (
        ("status", text status_blocked_by_guardrail)
        ∷ ("guardrail_reason", text d.reason)
        ∷ ("rule_violated", rule_value d.rule_violated)
        ∷ []);
  }

  -- The action with the time of its execution in its metadata.
  unfoldable pub approved_action : F → OptimizationAction F → OptimizationAction F
  unfolding merge put
  approved_action now a = record a {
    metadata = merge a.metadata (("status", text status_approved) ∷ ("executed_at", num now) ∷ []);
  }

  -- The history with the decided action at its end, and the result of the cycle.
  unfoldable pub concluded :
      OptimizationRunner F
      → Readings F
      → Dict (Value F)
      → List (CounterfactualResult F)
      → PolicyDecision
      → String
      → OptimizationAction F
      → List (OptimizationAction F) × OptimizationResult F
  unfolding cycle_time_ms merge
  concluded runner t fusion results decision status done = (
    runner.execution_history ++ done ∷ [],
    record {
      status = status;
      action = some done;
      policy_decision = some decision;
      counterfactual_results = results;
      metadata = merge (("cycle_time_ms", cycle_time_ms t) ∷ []) fusion;
    },
  )

  -- The end of the cycle, with the action and the guardrail's decision on it.
  unfoldable pub conclude :
      OptimizationRunner F
      → Readings F
      → Dict (Value F)
      → List (CounterfactualResult F)
      → OptimizationAction F
      → PolicyDecision
      → List (OptimizationAction F) × OptimizationResult F
  unfolding tagged_action approved_action concluded
  conclude runner t fusion results action decision =
      if decision.allowed
      then concluded runner t fusion results decision status_approved
          (approved_action t.executed action)
      else concluded runner t fusion results decision status_blocked_by_guardrail
          (tagged_action decision action)

  -- The cycle once an action is selected, or none is.
  unfoldable pub decide :
      OptimizationRunner F
      → Readings F
      → Dict (Value F)
      → List (CounterfactualResult F)
      → Option (OptimizationAction F)
      → Result (List (OptimizationAction F) × OptimizationResult F)
  unfolding no_action validate_action conclude cycle_time_ms merge
  decide runner t fusion results none = ok (
    runner.execution_history,
    no_action "No action met confidence threshold"
        (merge
          (("cycle_time_ms", cycle_time_ms t)
            ∷ ("min_confidence", num runner.engine.min_confidence)
            ∷ [])
          fusion)
        results,
  )
  decide runner t fusion results (some action) = do
    decision ←
        validate_action runner.policy_evaluator t.cooldown t.flapping action
          runner.execution_history
    ok (conclude runner t fusion results action decision)

  -- The cycle after the simulation.
  unfoldable pub after_simulation :
      OptimizationRunner F
      → Readings F
      → DriftEvent F
      → Dict (Value F)
      → List (CounterfactualResult F)
      → Result (List (OptimizationAction F) × OptimizationResult F)
  unfolding no_action select_action decide cycle_time_ms merge
  after_simulation runner t e fusion [] = ok (
    runner.execution_history,
    no_action "No counterfactual results generated"
        (merge (("cycle_time_ms", cycle_time_ms t) ∷ []) fusion) [],
  )
  after_simulation runner t e fusion (r ∷ results) = do
    selected ← select_action runner.engine e (r ∷ results)
    decide runner t fusion (r ∷ results) selected

  unfoldable pub run_optimization_cycle :
      (String → String)
      → OptimizationRunner F
      → Readings F
      → DriftEvent F
      → CausalAttribution F
      → List (EvaluationRecord F)
      → Option (CausalGraph F)
      → Option (LatentDriftResult F)
      → ℕ
      → Result (List (OptimizationAction F) × OptimizationResult F)
  unfolding run_counterfactual_analysis fusion_metadata after_simulation
  run_optimization_cycle uuid5 runner t e attribution records graph latent top_k = do
    results ← run_counterfactual_analysis uuid5 e attribution records none top_k
    after_simulation runner t e (fusion_metadata runner.fusion_engine graph latent) results
