-- ===== src/Optimization/Runner/Guard.antt =====
-- What the execution history does to the actions of later cycles.
use mathlib.Core.List.{Memᴰ}
use mathlib.Core.List.Memᴰ
use post_rag_drift_evaluator.Prelude.{
  arith, ◌≡◌, refl, sym, ◌∙◌, subst, true, false, List, [], ◌∷◌, ◌++◌, inl, inr, Bool-cases,
}
use post_rag_drift_evaluator.Result.{ok}
use post_rag_drift_evaluator.Float.{Float}
use post_rag_drift_evaluator.Dict.{Dict}
use post_rag_drift_evaluator.Value.{Value}
use post_rag_drift_evaluator.Models.Scenarios.{CounterfactualResult}
use post_rag_drift_evaluator.Models.Actions.{OptimizationAction}
use post_rag_drift_evaluator.Guardrails.{
  PolicyDecision, PolicyEvaluator, action_signature, params_of, elapsed, validate_action,
}
use post_rag_drift_evaluator.Guardrails.Verdict.{HasCooled, validate_action-allowed_iff}
use post_rag_drift_evaluator.Optimization.Engine.Selection.{All-Mem}
use post_rag_drift_evaluator.Optimization.Runner.{
  OptimizationRunner, Readings, tagged_action, approved_action, conclude,
}
use post_rag_drift_evaluator.Optimization.Runner.Cycle.{
  IsFresh, tagged_action-signature, approved_action-signature, elapsed-tagged_action,
  elapsed-approved_action, Decided, conclude-Decided,
}

module _ {F : Type 0} ⦃fl : Float F⦄ where
  open fl use {lt, sub}

  -- A past action with the same signature that has not cooled down blocks the action.
  blocked-by_past :
      (p : PolicyEvaluator F) (now later : F) (a past : OptimizationAction F)
      (history : List (OptimizationAction F))
      → params_of a ≡ ok []
      → Memᴰ past history
      → action_signature past ≡ action_signature a
      → lt (elapsed now past) p.cooldown_period_s ≡ true
      → (d : PolicyDecision) × (validate_action p now later a history ≡ ok d) × (d.allowed ≡ false)
  blocked-by_past p now later a past history params m same hot =
      let verdict = validate_action-allowed_iff p now later a history [] params in
      elim (Bool-cases verdict.0.allowed) [
        | inl e ↦
            let cooled = (verdict.2.0 e).1 in
            absurd
              ((All-Mem (HasCooled p.cooldown_period_s now a) past history cooled m).apart hot same)
        | inr e ↦ (verdict.0, verdict.1, e)
      ]

  recorded-Mem :
      (done : OptimizationAction F) (before more : List (OptimizationAction F))
      → Memᴰ done ((before ++ done ∷ []) ++ more)
  recorded-Mem done before more = Memᴰ.append_left more (Memᴰ.append_right before (Memᴰ.head refl))

  module _ (runner : OptimizationRunner F) (t : Readings F) (fusion : Dict (Value F))
      (results : List (CounterfactualResult F)) (a : OptimizationAction F)
      (d : PolicyDecision) where
    -- The history after the decision, with any later actions.
    abbrev pub history_with : List (OptimizationAction F) → List (OptimizationAction F)
    history_with more = (conclude runner t fusion results a d).0 ++ more

    done_of :
        (done : OptimizationAction F) × Decided runner t a d done
          (conclude runner t fusion results a d).0
          (conclude runner t fusion results a d).1
    done_of = conclude-Decided runner t fusion results a d _ _ refl

    past-Mem : (more : List (OptimizationAction F)) → Memᴰ done_of.0 (history_with more)
    past-Mem more =
        subst (λ h. Memᴰ done_of.0 (h ++ more)) (sym done_of.1.recorded)
          (recorded-Mem done_of.0 runner.execution_history more)

    -- Once a cycle has blocked an action that was never executed, every later action of the same
    -- signature without parameters is rejected, whatever time has passed and whatever came between,
    -- if `now - now` is below the cooldown period: the blocked action counts as executed just now
    -- for ever.
    pub conclude-blocks_for_ever :
        IsFresh a
        → d.allowed ≡ false
        → (p : PolicyEvaluator F) (now later : F) (b : OptimizationAction F)
          (more : List (OptimizationAction F))
        → params_of b ≡ ok []
        → action_signature a ≡ action_signature b
        → lt (sub now now) p.cooldown_period_s ≡ true
        → (d' : PolicyDecision) × (validate_action p now later b (history_with more) ≡ ok d')
          × (d'.allowed ≡ false)
    conclude-blocks_for_ever fresh off p now later b more params same hot =
        let is_tagged : done_of.0 ≡ tagged_action d a = elim done_of.1.verdict [
          | inl (e, s, made) ↦ absurd (ground arith)
          | inr (e, s, made) ↦ made
        ] in
        blocked-by_past p now later b (tagged_action d a) (history_with more) params
          (subst (λ x. Memᴰ x (history_with more)) is_tagged (past-Mem more))
          (tagged_action-signature d a ∙ same)
          (rw (elapsed-tagged_action now d a fresh.not_executed) hot)

    -- Once a cycle has approved an action, every later action of the same signature without
    -- parameters is rejected until the cooldown period has passed since the approval.
    pub conclude-cools_down :
        d.allowed ≡ true
        → (p : PolicyEvaluator F) (now later : F) (b : OptimizationAction F)
          (more : List (OptimizationAction F))
        → params_of b ≡ ok []
        → action_signature a ≡ action_signature b
        → lt (sub now t.executed) p.cooldown_period_s ≡ true
        → (d' : PolicyDecision) × (validate_action p now later b (history_with more) ≡ ok d')
          × (d'.allowed ≡ false)
    conclude-cools_down on p now later b more params same hot =
        let is_stamped : done_of.0 ≡ approved_action t.executed a = elim done_of.1.verdict [
          | inl (e, s, made) ↦ made
          | inr (e, s, made) ↦ absurd (ground arith)
        ] in
        blocked-by_past p now later b (approved_action t.executed a) (history_with more) params
          (subst (λ x. Memᴰ x (history_with more)) is_stamped (past-Mem more))
          (approved_action-signature t.executed a ∙ same)
          (rw (elapsed-approved_action now t.executed a) hot)
