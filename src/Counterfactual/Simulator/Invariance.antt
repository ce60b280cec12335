-- ===== src/Counterfactual/Simulator/Invariance.antt =====
-- The simulation beside the estimate from the original records.
use post_rag_drift_evaluator.Prelude.{
  ℕ, String, ◌≡◌, refl, sym, ap, ◌∙◌, subst, Bool, some, List, [], ◌∷◌, ◌++◌, arith, All, inl, inr,
  Option-cases, map, keep, sort_by, map-sort_by, sort_by-Sorted, sort_by-of_Sorted, All-sort_by,
}
use post_rag_drift_evaluator.Result.{ok, Result-cases}
use post_rag_drift_evaluator.Float.{Float, IsNum, IsOrdered}
use post_rag_drift_evaluator.Float.Order.{not-lt_trans, le_of_lt-lt_asymm}
use post_rag_drift_evaluator.Models.Records.{DriftEvent, EvaluationRecord}
use post_rag_drift_evaluator.Models.Events.{CausalAttribution}
use post_rag_drift_evaluator.Models.Scenarios.{
  Intervention, CounterfactualScenario, CounterfactualResult,
}
use post_rag_drift_evaluator.Temporal.Series.{timestamp_of}
use post_rag_drift_evaluator.Causal.Changes.{extract_change_events}
use post_rag_drift_evaluator.Counterfactual.Estimator.{
  vals, values_in, values_of, mean_or_zero, estimate_from, estimate_metric_after_intervention,
}
use post_rag_drift_evaluator.Counterfactual.Scenario.{build_counterfactual_scenarios}
use post_rag_drift_evaluator.Counterfactual.Simulator.{
  intervene, update_first, find_change, apply_intervention, apply_interventions, apply_scenario,
  result_of, simulate, run_counterfactual_analysis,
}
use post_rag_drift_evaluator.Counterfactual.Simulator.Bare.{bare, bare-intervene, map-update_first}

module _ {F : Type 0} ⦃fl : Float F⦄ where
  open fl use {lt}

  -- `r` stands before `s` in the order of time.
  abbrev sooner : EvaluationRecord F → EvaluationRecord F → Bool
  sooner r s = lt (timestamp_of r) (timestamp_of s)

  abbrev Timed : EvaluationRecord F → Type 0
  Timed r = IsNum (timestamp_of r)

  -- The records in the order of time, without what an intervention can change.
  abbrev timeline : List (EvaluationRecord F) → List (EvaluationRecord F)
  timeline records = sort_by sooner (map bare records)

  values_of-bare :
      (name : String) (records : List (EvaluationRecord F))
      → values_of name (map bare records) ≡ values_of name records
  unfolding values_of timestamp_of
  values_of-bare name [] = refl
  values_of-bare name (r ∷ records) =
      ap (λ vs. values_in name (timestamp_of r) r.metrics ++ vs) (values_of-bare name records)

  bare-sort_by :
      (records : List (EvaluationRecord F)) → map bare (sort_by sooner records) ≡ timeline records
  unfolding timestamp_of
  bare-sort_by records = map-sort_by sooner sooner bare (λ x y. refl) records

  -- The estimate reads nothing but the timeline.
  estimate-timeline :
      (e : DriftEvent F) (records records' : List (EvaluationRecord F)) (name method : String)
      (alpha : F)
      → timeline records' ≡ timeline records
      → estimate_metric_after_intervention e records' name method alpha
        ≡ estimate_metric_after_intervention e records name method alpha
  unfolding estimate_metric_after_intervention
  estimate-timeline e records records' name method alpha h =
      let values : values_of name (sort_by sooner records')
          ≡ values_of name (sort_by sooner records) =
        sym (values_of-bare name (sort_by sooner records'))
        ∙ ap (values_of name) (bare-sort_by records' ∙ h ∙ sym (bare-sort_by records))
        ∙ values_of-bare name (sort_by sooner records) in
      ap
        (λ all_values. elim (keep (λ (ts, v). lt ts e.start_timestamp) all_values) [
          | [] ↦ mean_or_zero (vals all_values)
          | p ∷ pre_window ↦ estimate_from (p ∷ pre_window) e.start_timestamp method alpha
        ])
        values

  -- The result of a scenario as it is without any simulation.
  abbrev pub unsimulated :
      DriftEvent F
      → List (EvaluationRecord F)
      → String
      → CounterfactualScenario F
      → CounterfactualResult F
  unsimulated e records name s =
      result_of name e.magnitude s
        (estimate_metric_after_intervention e records name "trend_adjusted" (fl.decimal 3 1))

  -- The metric and the delta come from the original records.
  abbrev pub HasUnsimulatedMetric :
      DriftEvent F → List (EvaluationRecord F) → String → CounterfactualResult F → Type 0
  HasUnsimulatedMetric e records name r =
      let estimate =
        estimate_metric_after_intervention e records name "trend_adjusted" (fl.decimal 3 1) in
      (r.counterfactual_metric ≡ fl.round 6 estimate)
      × (r.delta ≡ fl.round 6 (fl.sub e.magnitude estimate))

  unsimulated-HasUnsimulatedMetric :
      (e : DriftEvent F) (records : List (EvaluationRecord F)) (name : String)
      (scenarios : List (CounterfactualScenario F))
      → All (HasUnsimulatedMetric e records name) (map (unsimulated e records name) scenarios)
  unfolding result_of
  unsimulated-HasUnsimulatedMetric e records name [] = tt
  unsimulated-HasUnsimulatedMetric e records name (s ∷ scenarios) =
      ((refl, refl), unsimulated-HasUnsimulatedMetric e records name scenarios)

  module _ (laws : IsOrdered F) where
    sort_by-again :
        (records : List (EvaluationRecord F))
        → All Timed records
        → sort_by sooner (sort_by sooner records) ≡ sort_by sooner records
    sort_by-again records h = sort_by-of_Sorted sooner (sort_by sooner records) (
        sort_by-Sorted sooner Timed
          (λ r s e. le_of_lt-lt_asymm laws (timestamp_of r) (timestamp_of s) e)
          (λ r s u hr hs hu e e'.
            not-lt_trans laws (timestamp_of u) (timestamp_of s) (timestamp_of r) hu hs hr e' e)
          records h)

    times_to_map-bare :
        (records : List (EvaluationRecord F)) → All Timed records → All Timed (map bare records)
    unfolding timestamp_of
    times_to_map-bare [] h = tt
    times_to_map-bare (r ∷ records) (h, hs) = (h, times_to_map-bare records hs)

    times_of_map-bare :
        (records : List (EvaluationRecord F)) → All Timed (map bare records) → All Timed records
    unfolding timestamp_of
    times_of_map-bare [] h = tt
    times_of_map-bare (r ∷ records) (h, hs) = (h, times_of_map-bare records hs)

    -- What every intervention leaves alone.
    abbrev Untouched : List (EvaluationRecord F) → List (EvaluationRecord F) → Type 0
    Untouched records records' = (timeline records' ≡ timeline records) × All Timed records'

    module _ (uuid5 : String → String) where
      apply_intervention-Untouched :
          (records : List (EvaluationRecord F)) (i : Intervention F)
          (records' : List (EvaluationRecord F))
          → All Timed records
          → apply_intervention uuid5 records i ≡ ok records'
          → Untouched records records'
      unfolding apply_intervention
      apply_intervention-Untouched records i records' timed h =
          elim (Option-cases (find_change i.change_id (extract_change_events uuid5 records))) [
            | inl e ↦
                let same : records ≡ records' = ground (arith, e, h) in
                subst (Untouched records) same (refl, timed)
            | inr (c, e) ↦
                let done : update_first c.run_id (intervene i c) (sort_by sooner records)
                    ≡ ok records' =
                  ground (arith, e, h) in
                let now : map bare records' ≡ timeline records =
                  map-update_first c.run_id (intervene i c) (bare-intervene i c)
                    (sort_by sooner records) records' done
                  ∙ bare-sort_by records in
                let all_timed = times_to_map-bare records timed in
                (
                  ap (sort_by sooner) now ∙ sort_by-again (map bare records) all_timed,
                  times_of_map-bare records' (
                      subst (All Timed) (sym now)
                        (All-sort_by sooner Timed (map bare records) all_timed)),
                )
          ]

      apply_interventions-Untouched :
          (is : List (Intervention F)) (records records' : List (EvaluationRecord F))
          → All Timed records
          → apply_interventions uuid5 is records ≡ ok records'
          → Untouched records records'
      unfolding apply_interventions
      apply_interventions-Untouched [] records records' timed h =
          let same : records ≡ records' = ground (arith, h) in
          subst (Untouched records) same (refl, timed)
      apply_interventions-Untouched (i ∷ is) records records' timed h =
          elim (Result-cases (apply_intervention uuid5 records i)) [
            | inl (next, e) ↦
                let first = apply_intervention-Untouched records i next timed e in
                let rest =
                  apply_interventions-Untouched is next records' first.1 (ground (arith, e, h)) in
                (rest.0 ∙ first.0, rest.1)
            | inr (x, e) ↦ absurd (ground (arith, e, h))
          ]

      -- A scenario does not change the estimate: whatever its interventions remove or modify, every
      -- method estimates the same from the records that it leaves as from the original ones, if the
      -- times of the records are numbers. The interventions change metadata and versions, and the
      -- estimate reads times and metric values alone.
      pub apply_scenario-estimate :
          (records modified : List (EvaluationRecord F)) (s : CounterfactualScenario F)
          (e : DriftEvent F) (name method : String) (alpha : F)
          → All (λ r. IsNum (timestamp_of r)) records
          → apply_scenario uuid5 records s ≡ ok modified
          → estimate_metric_after_intervention e modified name method alpha
            ≡ estimate_metric_after_intervention e records name method alpha
      unfolding apply_scenario
      apply_scenario-estimate records modified s e name method alpha timed h =
          let left = apply_interventions-Untouched s.interventions records modified timed h in
          estimate-timeline e records modified name method alpha left.0

      simulate-eq-unsimulated :
          (e : DriftEvent F) (records : List (EvaluationRecord F)) (name : String)
          (scenarios : List (CounterfactualScenario F)) (results : List (CounterfactualResult F))
          → All (λ r. IsNum (timestamp_of r)) records
          → simulate uuid5 e records name scenarios ≡ ok results
          → results ≡ map (unsimulated e records name) scenarios
      unfolding simulate
      simulate-eq-unsimulated e records name [] results timed h = ground (arith, h)
      simulate-eq-unsimulated e records name (s ∷ scenarios) results timed h =
          elim (Result-cases (apply_scenario uuid5 records s)) [
            | inl (modified, a) ↦ elim (Result-cases (simulate uuid5 e records name scenarios)) [
              | inl (rest, b) ↦
                  let cf =
                    estimate_metric_after_intervention e modified name "trend_adjusted"
                      (fl.decimal 3 1) in
                  let same : results ≡ result_of name e.magnitude s cf ∷ rest =
                    ground (arith, a, b, h) in
                  let estimate =
                    apply_scenario-estimate records modified s e name "trend_adjusted"
                      (fl.decimal 3 1) timed a in
                  let tail = simulate-eq-unsimulated e records name scenarios rest timed b in
                  same
                  ∙ ap (λ x. result_of name e.magnitude s x ∷ rest) estimate
                  ∙ ap (λ rs. unsimulated e records name s ∷ rs) tail
              | inr (x, b) ↦ absurd (ground (arith, a, b, h))
            ]
            | inr (x, a) ↦ absurd (ground (arith, a, h))
          ]

      -- An analysis that returns gives one result per scenario, in order, and every result is what
      -- it would be if no intervention had been applied: all have the same counterfactual metric
      -- and the same delta. The times of the records are numbers.
      pub run_counterfactual_analysis-eq-unsimulated :
          (e : DriftEvent F) (a : CausalAttribution F) (records : List (EvaluationRecord F))
          (name : String) (top_k : ℕ) (results : List (CounterfactualResult F))
          → All (λ r. IsNum (timestamp_of r)) records
          → run_counterfactual_analysis uuid5 e a records (some name) top_k ≡ ok results
          → (results ≡ map (unsimulated e records name) (build_counterfactual_scenarios a top_k))
            × All (HasUnsimulatedMetric e records name) results
      unfolding run_counterfactual_analysis
      run_counterfactual_analysis-eq-unsimulated e a records name top_k results timed h =
          let same =
            simulate-eq-unsimulated e records name (build_counterfactual_scenarios a top_k) results
              timed h in
          (
            same,
            subst (All (HasUnsimulatedMetric e records name)) (sym same) (
                unsimulated-HasUnsimulatedMetric e records name
                  (build_counterfactual_scenarios a top_k)),
          )
