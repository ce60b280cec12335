-- ===== src/Optimization/Runner/Totality.antt =====
-- When a cycle of the runner returns.
use mathlib.Core.List.{Memᴰ}
use post_rag_drift_evaluator.Prelude.{
  ℕ, String, ◌≡◌, refl, ap, ◌∙◌, subst, Option, none, some, List, [], ◌∷◌, arith, All, inl, inr,
  keep,
}
use post_rag_drift_evaluator.Result.{ok, Result-cases}
use post_rag_drift_evaluator.Float.{Float}
use post_rag_drift_evaluator.Dict.{Dict, get, get_or}
use post_rag_drift_evaluator.Value.{Value, nothing, items, Items, nil, cons}
use post_rag_drift_evaluator.Models.Records.{DriftEvent, EvaluationRecord}
use post_rag_drift_evaluator.Models.Events.{CausalAttribution}
use post_rag_drift_evaluator.Models.Scenarios.{CounterfactualScenario, CounterfactualResult}
use post_rag_drift_evaluator.Models.Actions.{OptimizationAction}
use post_rag_drift_evaluator.Latent.Models.{LatentDriftResult}
use post_rag_drift_evaluator.Causal.Fusion.{CausalGraph}
use post_rag_drift_evaluator.Counterfactual.Scenario.{build_counterfactual_scenarios}
use post_rag_drift_evaluator.Counterfactual.Estimator.{estimate_metric_after_intervention}
use post_rag_drift_evaluator.Counterfactual.Simulator.{
  apply_scenario, result_of, simulate, run_counterfactual_analysis,
}
use post_rag_drift_evaluator.Guardrails.Verdict.{validate_action-allowed_iff}
use post_rag_drift_evaluator.Optimization.Engine.{
  OptimizationEngine, track_of, confident, action_for, first_change_id, best_of, select_best,
  select_action,
}
use post_rag_drift_evaluator.Optimization.Engine.Selection.{All-Mem, best_of-Mem, Mem-of_keep}
use post_rag_drift_evaluator.Optimization.Runner.{
  OptimizationRunner, OptimizationResult, Readings, decide, after_simulation, fusion_metadata,
  run_optimization_cycle,
}
use post_rag_drift_evaluator.Optimization.Runner.Cycle.{
  IsFresh, action_for-IsFresh, IsFresh-params_of,
}

module _ {F : Type 0} ⦃fl : Float F⦄ where
  -- The identifiers of a result's changes are a list.
  abbrev HasIds : CounterfactualResult F → Type 0
  HasIds r = (ids : Items F) × (get "change_ids" r.metadata ≡ some (items ids))

  result_of-HasIds :
      (name : String) (m : F) (s : CounterfactualScenario F) (cf : F)
      → HasIds (result_of name m s cf)
  unfolding result_of get
  result_of-HasIds name m s cf = (_, refl)

  simulate-HasIds :
      (uuid5 : String → String) (e : DriftEvent F) (records : List (EvaluationRecord F))
      (name : String) (scenarios : List (CounterfactualScenario F))
      (results : List (CounterfactualResult F))
      → simulate uuid5 e records name scenarios ≡ ok results
      → All HasIds results
  unfolding simulate
  simulate-HasIds uuid5 e records name [] results h =
      let same : ◌≡◌ {A = List (CounterfactualResult F)} [] results = ground (arith, h) in
      subst (All HasIds) same tt
  simulate-HasIds uuid5 e records name (s ∷ scenarios) results h =
      elim (Result-cases (apply_scenario uuid5 records s)) [
        | inl (modified, a) ↦ elim (Result-cases (simulate uuid5 e records name scenarios)) [
          | inl (rest, b) ↦
              let cf =
                estimate_metric_after_intervention e modified name "trend_adjusted"
                  (fl.decimal 3 1) in
              let same : result_of name e.magnitude s cf ∷ rest ≡ results =
                ground (arith, a, b, h) in
              subst (All HasIds) same (
                result_of-HasIds name e.magnitude s cf,
                simulate-HasIds uuid5 e records name scenarios rest b,
              )
          | inr (x, b) ↦ absurd (ground (arith, a, b, h))
        ]
        | inr (x, a) ↦ absurd (ground (arith, a, h))
      ]

  first_change_id-items : (ids : Items F) → (id : String) × (first_change_id (items ids) ≡ ok id)
  unfolding first_change_id
  first_change_id-items nil = (_, refl)
  first_change_id-items (cons v rest) = (_, refl)

  action_for-returns :
      (engine : OptimizationEngine F) (track : Value F) (r : CounterfactualResult F)
      → HasIds r
      → (a : OptimizationAction F) × (action_for engine track r ≡ ok a)
  unfolding action_for
  action_for-returns engine track r (ids, h) =
      let found = first_change_id-items ids in
      let listed : get_or "change_ids" nothing r.metadata ≡ items ids =
        ap (λ (o : Option (Value F)). elim o [ none ↦ nothing | some v ↦ v ]) h in
      rw (ap first_change_id listed ∙ found.1) (_, refl)

  select_best-returns :
      (engine : OptimizationEngine F) (track : Value F) (kept : List (CounterfactualResult F))
      → ((r : CounterfactualResult F) → Memᴰ r kept → HasIds r)
      → (selected : Option (OptimizationAction F)) × (select_best engine track kept ≡ ok selected)
        × ((a : OptimizationAction F) → selected ≡ some a → IsFresh a)
  unfolding select_best
  select_best-returns engine track [] h = (none, refl, λ a e. absurd (ground arith))
  select_best-returns engine track (r ∷ rest) h =
      let best = best_of r rest in
      let made = action_for-returns engine track best (h best (best_of-Mem r rest)) in
      (
        some made.0,
        rw made.1 refl,
        λ a e. action_for-IsFresh engine track best a (made.1 ∙ ground (arith, e)),
      )

  select_action-returns :
      (engine : OptimizationEngine F) (e : DriftEvent F) (results : List (CounterfactualResult F))
      → All HasIds results
      → (selected : Option (OptimizationAction F)) × (select_action engine e results ≡ ok selected)
        × ((a : OptimizationAction F) → selected ≡ some a → IsFresh a)
  unfolding select_action
  select_action-returns engine e results h =
      select_best-returns engine (track_of e) (keep (confident engine) results)
        (λ r m. All-Mem HasIds r results h (Mem-of_keep (confident engine) r results m).1)

  decide-returns :
      (runner : OptimizationRunner F) (t : Readings F) (fusion : Dict (Value F))
      (results : List (CounterfactualResult F)) (selected : Option (OptimizationAction F))
      → ((a : OptimizationAction F) → selected ≡ some a → IsFresh a)
      → (out : List (OptimizationAction F) × OptimizationResult F) × (decide runner t fusion results
            selected
          ≡ ok out)
  unfolding decide
  decide-returns runner t fusion results none h = (_, refl)
  decide-returns runner t fusion results (some a) h =
      let verdict =
        validate_action-allowed_iff runner.policy_evaluator t.cooldown t.flapping a
          runner.execution_history [] (IsFresh-params_of a (h a refl)) in
      rw verdict.1 (_, refl)

  after_simulation-returns :
      (runner : OptimizationRunner F) (t : Readings F) (e : DriftEvent F) (fusion : Dict (Value F))
      (results : List (CounterfactualResult F))
      → All HasIds results
      → (out : List (OptimizationAction F) × OptimizationResult F) × (after_simulation runner t e
            fusion results
          ≡ ok out)
  unfolding after_simulation
  after_simulation-returns runner t e fusion [] h = (_, refl)
  after_simulation-returns runner t e fusion (r ∷ results) h =
      let found = select_action-returns runner.engine e (r ∷ results) h in
      rw found.1 (decide-returns runner t fusion (r ∷ results) found.0 found.2)

  -- A cycle returns whenever its simulation does: neither the selection of an action nor the
  -- guardrail raises on what the simulation gives them.
  pub run_optimization_cycle-returns :
      (uuid5 : String → String) (runner : OptimizationRunner F) (t : Readings F) (e : DriftEvent F)
      (attribution : CausalAttribution F) (records : List (EvaluationRecord F))
      (graph : Option (CausalGraph F)) (latent : Option (LatentDriftResult F)) (top_k : ℕ)
      (results : List (CounterfactualResult F))
      → run_counterfactual_analysis uuid5 e attribution records none top_k ≡ ok results
      → (out : List (OptimizationAction F) × OptimizationResult F) × (run_optimization_cycle uuid5
            runner t e attribution records graph latent top_k
          ≡ ok out)
  unfolding run_optimization_cycle run_counterfactual_analysis
  run_optimization_cycle-returns uuid5 runner t e attribution records graph latent top_k results h =
      let ids =
        simulate-HasIds uuid5 e records attribution.metric_name
          (build_counterfactual_scenarios attribution top_k) results h in
      rw h (
        after_simulation-returns runner t e (fusion_metadata runner.fusion_engine graph latent)
          results ids)
