-- ===== src/Guardrails/Verdict.antt =====
-- When `validate_action` lets an action pass, and which rule it names when it does not.
use post_rag_drift_evaluator.Prelude.{
  ◌<◌, String, ◌≡◌, ◌≢◌, ◌↔◌, ◌⊎◌, inl, inr, refl, true, false, none, some, List, [], ◌∷◌, arith,
  All, Bool-cases, Option-cases, eq_iff, subst,
}
use post_rag_drift_evaluator.Result.{ok}
use post_rag_drift_evaluator.Float.{Float}
use post_rag_drift_evaluator.Dict.{Dict, get}
use post_rag_drift_evaluator.Value.{Value, number?}
use post_rag_drift_evaluator.Models.Actions.{OptimizationAction}
use post_rag_drift_evaluator.Guardrails.{
  PolicyDecision, PolicyEvaluator, action_signature, out_of_bounds, check_params, params_of,
  check_parameter_bounds, elapsed, cooling, check_cooldown, flapped_count, check_flapping,
  first_rejection, validate_action,
}

-- A decision passes where the rule holds, and names the rule where it does not.
abbrev pub Decides {ℓ} : Type ℓ → String → PolicyDecision → Type ℓ
Decides Rule name d =
    (d.allowed ≡ true) × Rule ⊎ (d.allowed ≡ false) × (d.rule_violated ≡ some name) × (¬ Rule)

-- The decision names the first of three rules that does not hold.
abbrev pub NamesFirst {ℓ} : Type ℓ → Type ℓ → Type ℓ → PolicyDecision → Type ℓ
NamesFirst P Q R d =
    (d.rule_violated ≡ some "parameter_bounds") × (¬ P)
    ⊎ (d.rule_violated ≡ some "cooldown_period") × P × (¬ Q)
    ⊎ (d.rule_violated ≡ some "max_flapping") × P × Q × (¬ R)

module _ {P Q R : Type 0} (b c f : PolicyDecision) where
  first_rejection-allowed_iff :
      Decides P "parameter_bounds" b
      → Decides Q "cooldown_period" c
      → Decides R "max_flapping" f
      → ((first_rejection b c f).allowed ≡ true) ↔ (P × Q × R)
  unfolding first_rejection
  first_rejection-allowed_iff (inr (e, r, n)) q r' =
      rw (e, first_rejection) (λ x. absurd (ground arith), λ t. absurd (n t.0))
  first_rejection-allowed_iff (inl (e, p)) (inr (e', r, n)) r' =
      rw (e, e', first_rejection) (λ x. absurd (ground arith), λ t. absurd (n t.1))
  first_rejection-allowed_iff (inl (e, p)) (inl (e', q)) (inr (e'', r, n)) =
      rw (e, e', e'', first_rejection) (λ x. absurd (ground arith), λ t. absurd (n t.2))
  first_rejection-allowed_iff (inl (e, p)) (inl (e', q)) (inl (e'', r)) =
      rw (e, e', e'', first_rejection) (λ x. (p, q, r), λ t. refl)

  first_rejection-rule :
      Decides P "parameter_bounds" b
      → Decides Q "cooldown_period" c
      → Decides R "max_flapping" f
      → (first_rejection b c f).allowed ≡ false
      → NamesFirst P Q R (first_rejection b c f)
  unfolding first_rejection
  first_rejection-rule (inr (e, r, n)) _ _ x = rw (e, first_rejection) (inl (r, n))
  first_rejection-rule (inl (e, p)) (inr (e', r, n)) _ x =
      rw (e, e', first_rejection) (inr (inl (r, p, n)))
  first_rejection-rule (inl (e, p)) (inl (e', q)) (inr (e'', r, n)) x =
      rw (e, e', e'', first_rejection) (inr (inr (r, p, q, n)))
  first_rejection-rule (inl (e, p)) (inl (e', q)) (inl (e'', r)) x = absurd (ground arith)

module _ {F : Type 0} ⦃fl : Float F⦄ where
  open fl use {lt}

  -- A parameter that has bounds and is a number lies between them.
  pub record WithinBounds (bounds : Dict (F × F)) (param : String × Value F) : Type 0 where
    pub between :
        (lo hi x : F)
        → get param.0 bounds ≡ some (lo, hi)
        → number? param.1 ≡ some x
        → (lt x lo ≡ false) × (lt hi x ≡ false)

  -- A past action is another one, or not within the cooldown period.
  pub record HasCooled (period now : F) (action past : OptimizationAction F) : Type 0 where
    pub apart :
        lt (elapsed now past) period ≡ true → action_signature past ≢ action_signature action

  out_of_bounds-none :
      (bounds : Dict (F × F)) (name : String) (v : Value F)
      → out_of_bounds bounds name v ≡ none
      → WithinBounds bounds (name, v)
  unfolding out_of_bounds
  out_of_bounds-none bounds name v h = record { between = λ lo hi x e n. ground arith }

  out_of_bounds-some :
      (bounds : Dict (F × F)) (name : String) (v : Value F) (b : F × F)
      → out_of_bounds bounds name v ≡ some b
      → ¬ WithinBounds bounds (name, v)
  unfolding out_of_bounds
  out_of_bounds-some bounds name v b h w = elim (Option-cases (get name bounds)) [
    | inl e ↦ ground arith
    | inr ((lo, hi), e) ↦ elim (Option-cases (number? v)) [
      | inl n ↦ ground arith
      | inr (x, n) ↦ ground (arith, w.between lo hi x e n)
    ]
  ]

  check_params-Decides :
      (bounds : Dict (F × F)) (params : Dict (Value F))
      → Decides (All (WithinBounds bounds) params) "parameter_bounds" (check_params bounds params)
  unfolding check_params
  check_params-Decides bounds [] = inl (refl, tt)
  check_params-Decides bounds ((name, v) ∷ params) =
      elim (Option-cases (out_of_bounds bounds name v)) [
        | inl e ↦
            rw (e, check_params)
              (elim (check_params-Decides bounds params) [
                | inl (a, h) ↦ inl (a, (out_of_bounds-none bounds name v e, h))
                | inr (a, r, h) ↦ inr (a, r, λ all. h all.1)
              ])
        | inr (b, e) ↦
            rw (e, check_params)
              (inr (refl, refl, λ all. out_of_bounds-some bounds name v b e all.0))
      ]

  cooling-false :
      (period now : F) (a past : OptimizationAction F)
      → cooling period now (action_signature a) past ≡ false
      → HasCooled period now a past
  unfolding cooling
  cooling-false period now a past h = record {
    apart = λ t e. ground (arith, eq_iff (action_signature past) (action_signature a));
  }

  cooling-true :
      (period now : F) (a past : OptimizationAction F)
      → cooling period now (action_signature a) past ≡ true
      → ¬ HasCooled period now a past
  unfolding cooling
  cooling-true period now a past h c =
      ground (arith, c.apart, eq_iff (action_signature past) (action_signature a))

  check_cooldown-Decides :
      (p : PolicyEvaluator F) (now : F) (a : OptimizationAction F)
      (history : List (OptimizationAction F))
      → Decides
          (All (HasCooled p.cooldown_period_s now a) history)
          "cooldown_period"
          (check_cooldown p now a history)
  unfolding check_cooldown
  check_cooldown-Decides p now a [] = inl (refl, tt)
  check_cooldown-Decides p now a (past ∷ history) =
      elim (Bool-cases (cooling p.cooldown_period_s now (action_signature a) past)) [
        | inl e ↦
            rw (e, check_cooldown)
              (inr (refl, refl, λ all. cooling-true p.cooldown_period_s now a past e all.0))
        | inr e ↦
            rw (e, check_cooldown)
              (elim (check_cooldown-Decides p now a history) [
                | inl (passes, h) ↦
                    inl (passes, (cooling-false p.cooldown_period_s now a past e, h))
                | inr (no_pass, r, h) ↦ inr (no_pass, r, λ all. h all.1)
              ])
      ]

  check_flapping-Decides :
      (p : PolicyEvaluator F) (now : F) (a : OptimizationAction F)
      (history : List (OptimizationAction F))
      → Decides
          (flapped_count p.flapping_window_s now a.target_run_id history < p.max_flapping_per_hour)
          "max_flapping"
          (check_flapping p now a history)
  unfolding check_flapping
  check_flapping-Decides p now a history = ground arith

  -- For an action whose `params` are a dictionary or missing, `validate_action` returns; it lets the
  -- action pass exactly when every bounded parameter is within its bounds, every past action has
  -- another signature or has cooled down, and fewer than the maximum on the same run lie within the
  -- flapping window.
  pub validate_action-allowed_iff :
      (p : PolicyEvaluator F) (now later : F) (a : OptimizationAction F)
      (history : List (OptimizationAction F)) (params : Dict (Value F))
      → params_of a ≡ ok params
      → (d : PolicyDecision) × (validate_action p now later a history ≡ ok d)
        × ((d.allowed ≡ true) ↔ (
            All (WithinBounds p.parameter_bounds) params
            × All (HasCooled p.cooldown_period_s now a) history
            × (flapped_count p.flapping_window_s later a.target_run_id history
                < p.max_flapping_per_hour)))
  unfolding validate_action check_parameter_bounds
  validate_action-allowed_iff p now later a history params e = rw e (
    _,
    refl,
    first_rejection-allowed_iff _ _ _ (check_params-Decides p.parameter_bounds params)
        (check_cooldown-Decides p now a history) (check_flapping-Decides p later a history),
  )

  -- A rejected action is rejected by the first rule that it breaks: the bounds, then the cooldown,
  -- then the flapping guard.
  pub validate_action-first_rule :
      (p : PolicyEvaluator F) (now later : F) (a : OptimizationAction F)
      (history : List (OptimizationAction F)) (params : Dict (Value F)) (d : PolicyDecision)
      → params_of a ≡ ok params
      → validate_action p now later a history ≡ ok d
      → d.allowed ≡ false
      → NamesFirst
          (All (WithinBounds p.parameter_bounds) params)
          (All (HasCooled p.cooldown_period_s now a) history)
          (flapped_count p.flapping_window_s later a.target_run_id history
            < p.max_flapping_per_hour)
          d
  unfolding validate_action check_parameter_bounds
  validate_action-first_rule p now later a history params d e v r =
      let out =
        first_rejection (check_params p.parameter_bounds params) (check_cooldown p now a history)
          (check_flapping p later a history) in
      let same : out ≡ d = ground arith in
      subst
        (NamesFirst (All (WithinBounds p.parameter_bounds) params)
          (All (HasCooled p.cooldown_period_s now a) history)
          (flapped_count p.flapping_window_s later a.target_run_id history
            < p.max_flapping_per_hour))
        same
        (first_rejection-rule _ _ _ (check_params-Decides p.parameter_bounds params)
          (check_cooldown-Decides p now a history) (check_flapping-Decides p later a history)
          (rw same r))
