-- ===== src/Guardrails.antt =====
-- evaluator/guardrails/policy.py: `PolicyEvaluator`. The readings of `time.time()` are arguments,
-- one for each check that takes one.
pub mod Verdict
use post_rag_drift_evaluator.Prelude.{
  ℕ, suc, String, Bool, true, false, Option, none, some, List, [], ◌∷◌, ◌||◌, not, concat, show_ℕ,
  str_eq, leb, if◌then◌else◌,
}
use post_rag_drift_evaluator.Result.{Result, ok, err, attribute_error, ◌>>=◌}
use post_rag_drift_evaluator.Float.{Float}
use post_rag_drift_evaluator.Dict.{Dict, get, put}
use post_rag_drift_evaluator.Value.{Value, Fields, num, dict, entries, number?, str_value}
use post_rag_drift_evaluator.Models.Actions.{OptimizationAction}

-- Its `metadata` is never filled, and left out.
pub record PolicyDecision : Type 0 where
  pub allowed : Bool
  pub reason : String
  pub rule_violated : Option String

abbrev pub passed : PolicyDecision
passed = record { allowed = true; reason = ""; rule_violated = none }

abbrev pub rejected : String → String → PolicyDecision
rejected rule reason = record { allowed = false; reason = reason; rule_violated = some rule }

-- The first of the three decisions that is a rejection, or the pass.
unfoldable pub first_rejection : PolicyDecision → PolicyDecision → PolicyDecision → PolicyDecision
first_rejection bounds cooldown flapping =
    if not bounds.allowed
    then bounds
    else if not cooldown.allowed
    then cooldown
    else if not flapping.allowed
    then flapping
    else record {
      allowed = true;
      reason = "Action passed all policy checks.";
      rule_violated = none;
    }

pub record PolicyEvaluator (F : Type 0) : Type 0 where
  pub cooldown_period_s : F
  pub max_flapping_per_hour : ℕ
  pub flapping_window_s : F
  pub parameter_bounds : Dict (F × F)

-- `action_signature`
unfoldable pub action_signature : {F : Type 0} → OptimizationAction F → String
action_signature a = concat (a.action_type ∷ ":" ∷ a.target_run_id ∷ ":" ∷ a.change_id ∷ [])

module _ {F : Type 0} ⦃fl : Float F⦄ where
  open fl use {decimal, sub, lt, show, format}

  -- PARAMETER_BOUNDS
  abbrev pub default_bounds : Dict (F × F)
  default_bounds =
      ("temperature", (decimal 0 0, decimal 1 0))
      ∷ ("top_k", (decimal 1 0, decimal 50 0))
      ∷ ("reranker_cutoff", (decimal 0 0, decimal 1 0))
      ∷ ("retrieval_depth", (decimal 1 0, decimal 20 0))
      ∷ []

  override_bounds : Dict (F × F) → Dict (F × F) → Dict (F × F)
  unfolding put
  override_bounds bounds [] = bounds
  override_bounds bounds ((k, b) ∷ custom) = override_bounds (put k b bounds) custom

  unfoldable pub init : F → ℕ → F → Dict (F × F) → PolicyEvaluator F
  unfolding override_bounds
  init cooldown max_flapping window custom = record {
    cooldown_period_s = cooldown;
    max_flapping_per_hour = max_flapping;
    flapping_window_s = window;
    parameter_bounds = override_bounds default_bounds custom;
  }

  -- PolicyEvaluator()
  abbrev pub default_policy : PolicyEvaluator F
  default_policy = init (decimal 300 0) 5 (decimal 3600 0) []

  -- `value < lo or value > hi`, for a parameter that has bounds and is a number.
  unfoldable pub out_of_bounds : Dict (F × F) → String → Value F → Option (F × F)
  unfolding get
  out_of_bounds bounds name value = elim (get name bounds) [
    | none ↦ none
    | some (lo, hi) ↦ elim (number? value) [
      | none ↦ none
      | some x ↦ if lt x lo || lt hi x then some (lo, hi) else none
    ]
  ]

  unfoldable pub check_params : Dict (F × F) → Dict (Value F) → PolicyDecision
  unfolding out_of_bounds str_value
  check_params bounds [] = passed
  check_params bounds ((name, value) ∷ params) =
      let rest = check_params bounds params in
      elim (out_of_bounds bounds name value) [
        | none ↦ rest
        | some (lo, hi) ↦ rejected "parameter_bounds" (
            concat (
              "Parameter '"
              ∷ name
              ∷ "'="
              ∷ str_value value
              ∷ " is outside bounds ["
              ∷ show lo
              ∷ ", "
              ∷ show hi
              ∷ "]."
              ∷ []))
      ]

  -- What `.items()` gives; only a dictionary has it, and a missing key stands for an empty one.
  unfoldable pub as_params : Option (Value F) → Result (Dict (Value F))
  unfolding entries
  as_params none = ok []
  as_params (some (dict fs)) = ok (entries fs)
  as_params (some v) = err attribute_error

  -- `action.metadata.get("params", {})`
  unfoldable pub params_of : OptimizationAction F → Result (Dict (Value F))
  unfolding get as_params
  params_of action = as_params (get "params" action.metadata)

  unfoldable pub check_parameter_bounds :
      PolicyEvaluator F → OptimizationAction F → Result PolicyDecision
  unfolding params_of check_params
  check_parameter_bounds p action = do
    params ← params_of action
    ok (check_params p.parameter_bounds params)

  -- The time since `executed_at`. Without a number there it is 0, and without the key `now - now`.
  unfoldable pub since : F → Option (Value F) → F
  since now none = sub now now
  since now (some v) = elim (number? v) [ none ↦ decimal 0 0 | some past_ts ↦ sub now past_ts ]

  unfoldable pub elapsed : F → OptimizationAction F → F
  unfolding get since
  elapsed now past = since now (get "executed_at" past.metadata)

  -- The test of `_check_cooldown` on one past action.
  unfoldable pub cooling : F → F → String → OptimizationAction F → Bool
  unfolding elapsed action_signature
  cooling period now key past =
      if lt (elapsed now past) period then str_eq (action_signature past) key else false

  unfoldable pub check_cooldown :
      PolicyEvaluator F → F → OptimizationAction F → List (OptimizationAction F) → PolicyDecision
  unfolding cooling
  check_cooldown p now action [] = passed
  check_cooldown p now action (past ∷ history) =
      let rest = check_cooldown p now action history in
      if cooling p.cooldown_period_s now (action_signature action) past
      then rejected "cooldown_period" (
          concat (
            "Action '"
            ∷ action.action_type
            ∷ "' is within cooldown period ("
            ∷ format 1 (elapsed now past)
            ∷ "s < "
            ∷ show p.cooldown_period_s
            ∷ "s)."
            ∷ []))
      else rest

  -- Past actions on the run within the window.
  unfoldable pub flapped_count : F → F → String → List (OptimizationAction F) → ℕ
  unfolding elapsed
  flapped_count window now target_run [] = 0
  flapped_count window now target_run (past ∷ history) =
      let rest = flapped_count window now target_run history in
      if lt window (elapsed now past)
      then rest
      else if str_eq past.target_run_id target_run
      then suc rest
      else rest

  unfoldable pub check_flapping :
      PolicyEvaluator F → F → OptimizationAction F → List (OptimizationAction F) → PolicyDecision
  unfolding flapped_count
  check_flapping p now action history =
      let count = flapped_count p.flapping_window_s now action.target_run_id history in
      if leb p.max_flapping_per_hour count
      then rejected "max_flapping" (
          concat (
            "Action targeting run '"
            ∷ action.target_run_id
            ∷ "' has been executed "
            ∷ show_ℕ count
            ∷ " times in the last "
            ∷ show p.flapping_window_s
            ∷ "s (max "
            ∷ show_ℕ p.max_flapping_per_hour
            ∷ ")."
            ∷ []))
      else passed

  -- `now` and `later` are the two readings of the clock.
  unfoldable pub validate_action :
      PolicyEvaluator F
      → F
      → F
      → OptimizationAction F
      → List (OptimizationAction F)
      → Result PolicyDecision
  unfolding check_parameter_bounds check_cooldown check_flapping first_rejection
  validate_action p now later action history = do
    bounds ← check_parameter_bounds p action
    ok (
        first_rejection bounds (check_cooldown p now action history)
          (check_flapping p later action history))
