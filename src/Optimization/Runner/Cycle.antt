-- ===== src/Optimization/Runner/Cycle.antt =====
-- What a cycle of the runner decides and records.

use post_rag_drift_evaluator.Prelude.{
  ℕ, String, ◌≡◌, refl, ap, ◌∙◌, ◌⊎◌, true, false, Option, none, some, List, [], ◌∷◌, ◌++◌, arith,
  inl, inr, Bool-cases,
}
use post_rag_drift_evaluator.Result.{ok, Result-cases}
use post_rag_drift_evaluator.Float.{Float}
use post_rag_drift_evaluator.Dict.{Dict, get, get_or, put, get-put_self, get-put_ne}
use post_rag_drift_evaluator.Value.{Value, nothing, num, text, merge}
use post_rag_drift_evaluator.Models.Records.{DriftEvent, EvaluationRecord}
use post_rag_drift_evaluator.Models.Events.{CausalAttribution}
use post_rag_drift_evaluator.Models.Scenarios.{CounterfactualResult}
use post_rag_drift_evaluator.Models.Actions.{OptimizationAction}
use post_rag_drift_evaluator.Latent.Models.{LatentDriftResult}
use post_rag_drift_evaluator.Causal.Fusion.{CausalGraph}
use post_rag_drift_evaluator.Counterfactual.Simulator.{run_counterfactual_analysis}
use post_rag_drift_evaluator.Guardrails.{
  PolicyDecision, action_signature, as_params, params_of, since, elapsed, validate_action,
}
use post_rag_drift_evaluator.Optimization.Engine.{
  OptimizationEngine, action_for, first_change_id, select_best, select_action,
}
use post_rag_drift_evaluator.Optimization.Runner.{
  OptimizationRunner, OptimizationResult, Readings, status_approved, status_blocked_by_guardrail,
  status_no_action_needed, rule_value, tagged_action, approved_action, concluded, conclude, decide,
  after_simulation, fusion_metadata, run_optimization_cycle,
}

module _ {F : Type 0} ⦃fl : Float F⦄ where
  open fl use {lt, sub}

  -- An action as the engine makes it: not executed yet, and without parameters.
  pub record IsFresh (a : OptimizationAction F) : Type 0 where
    pub not_executed : get "executed_at" a.metadata ≡ none
    pub no_params : get "params" a.metadata ≡ none

  abbrev engine_metadata : Value F → CounterfactualResult F → Dict (Value F)
  engine_metadata track r =
      ("counterfactual_delta", num r.delta)
      ∷ ("counterfactual_confidence", num r.confidence)
      ∷ ("track", track)
      ∷ ("source", text "optimization_engine")
      ∷ []

  pub action_for-IsFresh :
      (engine : OptimizationEngine F) (track : Value F) (r : CounterfactualResult F)
      (a : OptimizationAction F)
      → action_for engine track r ≡ ok a
      → IsFresh a
  unfolding action_for get
  action_for-IsFresh engine track r a h =
      elim (Result-cases (first_change_id (get_or "change_ids" nothing r.metadata))) [
        | inl (id, f) ↦
            let made : a.metadata ≡ engine_metadata track r = ground (arith, f, h) in
            record { not_executed = rw made refl; no_params = rw made refl }
        | inr (x, f) ↦ absurd (ground (arith, f, h))
      ]

  pub IsFresh-params_of : (a : OptimizationAction F) → IsFresh a → params_of a ≡ ok []
  unfolding params_of as_params
  IsFresh-params_of a h = ap as_params h.no_params

  pub tagged_action-signature :
      (d : PolicyDecision) (a : OptimizationAction F)
      → action_signature (tagged_action d a) ≡ action_signature a
  unfolding action_signature tagged_action
  tagged_action-signature d a = refl

  pub approved_action-signature :
      (t : F) (a : OptimizationAction F)
      → action_signature (approved_action t a) ≡ action_signature a
  unfolding action_signature approved_action
  approved_action-signature t a = refl

  tagged_action-executed_at :
      (d : PolicyDecision) (a : OptimizationAction F)
      → get "executed_at" (tagged_action d a).metadata ≡ get "executed_at" a.metadata
  unfolding tagged_action merge
  tagged_action-executed_at d a =
      let one = put "status" (text status_blocked_by_guardrail) a.metadata in
      let two = put "guardrail_reason" (text d.reason) one in
      get-put_ne "rule_violated" "executed_at" (rule_value d.rule_violated) two refl
      ∙ get-put_ne "guardrail_reason" "executed_at" (text d.reason) one refl
      ∙ get-put_ne "status" "executed_at" (text status_blocked_by_guardrail) a.metadata refl

  pub elapsed-tagged_action :
      (now : F) (d : PolicyDecision) (a : OptimizationAction F)
      → get "executed_at" a.metadata ≡ none
      → elapsed now (tagged_action d a) ≡ sub now now
  unfolding elapsed tagged_action merge since
  elapsed-tagged_action now d a h = ap (since now) (tagged_action-executed_at d a ∙ h)

  pub elapsed-approved_action :
      (now t : F) (a : OptimizationAction F) → elapsed now (approved_action t a) ≡ sub now t
  unfolding elapsed approved_action merge since
  elapsed-approved_action now t a = rw get-put_self refl

  -- What a cycle with a decided action records and reports.
  pub record Decided (runner : OptimizationRunner F) (t : Readings F) (a : OptimizationAction F)
      (d : PolicyDecision) (done : OptimizationAction F) (history : List (OptimizationAction F))
      (res : OptimizationResult F) : Type 0 where
    pub recorded : history ≡ runner.execution_history ++ done ∷ []
    pub reported : res.action ≡ some done
    pub decision : res.policy_decision ≡ some d
    pub verdict :
        (d.allowed ≡ true) × (res.status ≡ status_approved) × (done ≡ approved_action t.executed a)
        ⊎ (d.allowed ≡ false)
          × (res.status ≡ status_blocked_by_guardrail)
          × (done ≡ tagged_action d a)

  -- What a cycle without an action records and reports.
  abbrev pub IsIdle :
      OptimizationRunner F → List (OptimizationAction F) → OptimizationResult F → Type 0
  IsIdle runner history res =
      (history ≡ runner.execution_history)
      × (res.status ≡ status_no_action_needed)
      × (res.action ≡ none)

  pub conclude-Decided :
      (runner : OptimizationRunner F) (t : Readings F) (fusion : Dict (Value F))
      (results : List (CounterfactualResult F)) (a : OptimizationAction F) (d : PolicyDecision)
      (history : List (OptimizationAction F)) (res : OptimizationResult F)
      → conclude runner t fusion results a d ≡ (history, res)
      → (done : OptimizationAction F) × Decided runner t a d done history res
  unfolding conclude concluded
  conclude-Decided runner t fusion results a d history res h = elim (Bool-cases d.allowed) [
    | inl e ↦ (
      approved_action t.executed a,
      record {
        recorded = ground (arith, e, h);
        reported = ground (arith, e, h);
        decision = ground (arith, e, h);
        verdict = inl (e, ground (arith, e, h), refl);
      },
    )
    | inr e ↦ (
      tagged_action d a,
      record {
        recorded = ground (arith, e, h);
        reported = ground (arith, e, h);
        decision = ground (arith, e, h);
        verdict = inr (e, ground (arith, e, h), refl);
      },
    )
  ]

  decide-outcome :
      (runner : OptimizationRunner F) (t : Readings F) (fusion : Dict (Value F))
      (results : List (CounterfactualResult F)) (selected : Option (OptimizationAction F))
      (history : List (OptimizationAction F)) (res : OptimizationResult F)
      → decide runner t fusion results selected ≡ ok (history, res)
      → ((selected ≡ none) × IsIdle runner history res)
        ⊎ ((a : OptimizationAction F) × (d : PolicyDecision) × (done : OptimizationAction F)
            × (selected ≡ some a)
            × (validate_action runner.policy_evaluator t.cooldown t.flapping a
                  runner.execution_history
                ≡ ok d)
            × Decided runner t a d done history res)
  unfolding decide
  decide-outcome runner t fusion results none history res h =
      inl (refl, (ground arith, ground arith, ground arith))
  decide-outcome runner t fusion results (some a) history res h =
      elim (Result-cases (
        validate_action runner.policy_evaluator t.cooldown t.flapping a runner.execution_history)) [
          | inl (d, e) ↦
              let same : conclude runner t fusion results a d ≡ (history, res) =
                ground (arith, e, h) in
              let out = conclude-Decided runner t fusion results a d history res same in
              inr (a, d, out.0, refl, e, out.1)
          | inr (x, e) ↦ absurd (ground (arith, e, h))
        ]

  -- What a cycle does with the results of its simulation.
  abbrev pub Outcome :
      OptimizationRunner F
      → Readings F
      → DriftEvent F
      → List (CounterfactualResult F)
      → List (OptimizationAction F)
      → OptimizationResult F
      → Type 0
  Outcome runner t e results history res =
      ((select_action runner.engine e results ≡ ok none) × IsIdle runner history res)
      ⊎ ((a : OptimizationAction F) × (d : PolicyDecision) × (done : OptimizationAction F)
          × (select_action runner.engine e results ≡ ok (some a))
          × (validate_action runner.policy_evaluator t.cooldown t.flapping a
                runner.execution_history
              ≡ ok d)
          × Decided runner t a d done history res)

  after_simulation-Outcome :
      (runner : OptimizationRunner F) (t : Readings F) (e : DriftEvent F) (fusion : Dict (Value F))
      (results : List (CounterfactualResult F)) (history : List (OptimizationAction F))
      (res : OptimizationResult F)
      → after_simulation runner t e fusion results ≡ ok (history, res)
      → Outcome runner t e results history res
  unfolding after_simulation select_action select_best
  after_simulation-Outcome runner t e fusion [] history res h =
      inl (refl, (ground arith, ground arith, ground arith))
  after_simulation-Outcome runner t e fusion (r ∷ results) history res h =
      elim (Result-cases (select_action runner.engine e (r ∷ results))) [
        | inl (selected, s) ↦
            let decided : decide runner t fusion (r ∷ results) selected ≡ ok (history, res) =
              ground (arith, s, h) in
            elim (decide-outcome runner t fusion (r ∷ results) selected history res decided) [
              | inl (n, idle) ↦ inl (s ∙ ap ok n, idle)
              | inr (a, d, done, n, v, rest) ↦ inr (a, d, done, s ∙ ap ok n, v, rest)
            ]
        | inr (x, s) ↦ absurd (ground (arith, s, h))
      ]

  -- A cycle that returns has simulated, and then either the engine selected no action, the history
  -- is as before and the result says that none is needed; or the engine selected an action, the
  -- guardrail decided on it with the history as it was, the history has that one action more, at
  -- its end, and the result reports it with the decision: approved and stamped with the time of its
  -- execution if the decision allows it, and otherwise blocked and marked with the reason.
  pub run_optimization_cycle-Outcome :
      (uuid5 : String → String) (runner : OptimizationRunner F) (t : Readings F) (e : DriftEvent F)
      (attribution : CausalAttribution F) (records : List (EvaluationRecord F))
      (graph : Option (CausalGraph F)) (latent : Option (LatentDriftResult F)) (top_k : ℕ)
      (history : List (OptimizationAction F)) (res : OptimizationResult F)
      → run_optimization_cycle uuid5 runner t e attribution records graph latent top_k
        ≡ ok (history, res)
      → (results : List (CounterfactualResult F)) × (run_counterfactual_analysis uuid5 e attribution
            records none top_k
          ≡ ok results)
        × Outcome runner t e results history res
  unfolding run_optimization_cycle
  run_optimization_cycle-Outcome uuid5 runner t e attribution records graph latent top_k history res
        h =
      elim (Result-cases (run_counterfactual_analysis uuid5 e attribution records none top_k)) [
        | inl (results, s) ↦
            let fusion = fusion_metadata runner.fusion_engine graph latent in
            let after : after_simulation runner t e fusion results ≡ ok (history, res) =
              ground (arith, s, h) in
            (results, s, after_simulation-Outcome runner t e fusion results history res after)
        | inr (x, s) ↦ absurd (ground (arith, s, h))
      ]
