-- ===== src/Optimization/Scorer/Order.antt =====
-- The order in which `score_actions` returns its recommendations.

use post_rag_drift_evaluator.Prelude.{
  ℕ, ◌+◌, ◌≡◌, true, false, inl, inr, Option-cases, List, [], ◌∷◌, Perm, arith, All, All-sort_by,
  Sorted, sort_by, sort_by-Sorted,
}
use post_rag_drift_evaluator.Float.{Float, IsNum, IsOrdered}
use post_rag_drift_evaluator.Float.Order.{le_of_lt-lt_asymm}
use post_rag_drift_evaluator.Dict.{Dict, get, put, values, All-put, All-get}
use post_rag_drift_evaluator.Value.{Value, str_value}
use post_rag_drift_evaluator.Models.Scenarios.{CounterfactualResult}
use post_rag_drift_evaluator.Models.Actions.{OptimizationAction, OptimizationRecommendation}
use post_rag_drift_evaluator.Optimization.Scorer.{
  change_ids_of, note_ids, recommend, recommend_all, index_results, ranks_above, renumber,
  score_actions,
}
use post_rag_drift_evaluator.Optimization.Scorer.Ranking.{
  actions_of, priorities_of, numbers_from, score_actions-actions,
}

module _ {F : Type 0} ⦃fl : Float F⦄ where
  open fl use {le, lt, feq, round, decimal}

  -- A result whose numbers are not NaN.
  abbrev pub IsMeasured : CounterfactualResult F → Type 0
  IsMeasured cf = IsNum cf.delta × IsNum cf.confidence

  abbrev IsScored : OptimizationRecommendation F → Type 0
  IsScored r = IsNum r.expected_improvement × IsNum r.confidence

  -- `s` promises no greater improvement than `r`, and with the same improvement no greater confidence.
  abbrev pub IsNoBetter : OptimizationRecommendation F → OptimizationRecommendation F → Type 0
  IsNoBetter r s =
      (le s.expected_improvement r.expected_improvement ≡ true)
      × (le r.expected_improvement s.expected_improvement ≡ true
          → le s.confidence r.confidence ≡ true)

  -- No recommendation is better than one in front of it.
  abbrev pub BestFirst : List (OptimizationRecommendation F) → Type 0
  BestFirst [] = Unit
  BestFirst (r ∷ rs) = All (IsNoBetter r) rs × BestFirst rs

module _ {F : Type 0} ⦃fl : Float F⦄ (laws : IsOrdered F) where
  open fl use {le, lt, feq, round, decimal}

  round-IsNum : (n : ℕ) (x : F) → IsNum x → IsNum (round n x)
  round-IsNum n x h = laws.round_mono n x x h

  zero-IsNum : IsNum (decimal 0 0)
  zero-IsNum = laws.decimal_mono 0 0 0 (omega arith)

  note_ids-IsMeasured :
      (cf : CounterfactualResult F) (ids : List (Value F)) (d : Dict (CounterfactualResult F))
      → IsMeasured cf
      → All IsMeasured (values d)
      → All IsMeasured (values (note_ids cf ids d))
  unfolding note_ids
  note_ids-IsMeasured cf [] d h hs = hs
  note_ids-IsMeasured cf (id ∷ ids) d h hs =
      note_ids-IsMeasured cf ids (put (str_value id) cf d) h (All-put IsMeasured _ cf d h hs)

  index_results-IsMeasured :
      (results : List (CounterfactualResult F)) (d : Dict (CounterfactualResult F))
      → All IsMeasured results
      → All IsMeasured (values d)
      → All IsMeasured (values (index_results results d))
  unfolding index_results
  index_results-IsMeasured [] d h hs = hs
  index_results-IsMeasured (cf ∷ results) d (h, h') hs =
      index_results-IsMeasured results _ h' (note_ids-IsMeasured cf (change_ids_of cf) d h hs)

  recommend-IsScored :
      (d : Dict (CounterfactualResult F)) (i : ℕ) (a : OptimizationAction F)
      → All IsMeasured (values d)
      → IsScored (recommend d i a)
  unfolding recommend
  recommend-IsScored d i a h = elim (Option-cases (get a.change_id d)) [
    | inl e ↦ rw (e, recommend) (round-IsNum 6 _ zero-IsNum, round-IsNum 4 _ zero-IsNum)
    | inr (cf, e) ↦
        let (p, q) = All-get IsMeasured a.change_id cf d h e in
        rw (e, recommend) (round-IsNum 6 cf.delta p, round-IsNum 4 cf.confidence q)
  ]

  recommend_all-IsScored :
      (d : Dict (CounterfactualResult F)) (i : ℕ) (actions : List (OptimizationAction F))
      → All IsMeasured (values d)
      → All IsScored (recommend_all d i actions)
  unfolding recommend_all
  recommend_all-IsScored d i [] h = tt
  recommend_all-IsScored d i (a ∷ actions) h =
      (recommend-IsScored d i a h, recommend_all-IsScored d (i + 1) actions h)

  -- The test of the sort is the order of the pairs.
  IsNoBetter-of_not_above :
      (r s : OptimizationRecommendation F)
      → IsScored r
      → IsScored s
      → ranks_above s r ≡ false
      → IsNoBetter r s
  IsNoBetter-of_not_above r s (p, q) (p', q') h = ground (
    arith,
    h,
    laws.feq-le_both r.expected_improvement s.expected_improvement,
    laws.lt-eq-not-le r.expected_improvement s.expected_improvement p p',
    laws.lt-eq-not-le r.confidence s.confidence q q',
  )

  not_above-of_IsNoBetter :
      (r s : OptimizationRecommendation F)
      → IsScored r
      → IsScored s
      → IsNoBetter r s
      → ranks_above s r ≡ false
  not_above-of_IsNoBetter r s (p, q) (p', q') (h, h') = ground (
    arith,
    h,
    h',
    laws.feq-le_both r.expected_improvement s.expected_improvement,
    laws.lt-eq-not-le r.expected_improvement s.expected_improvement p p',
    laws.lt-eq-not-le r.confidence s.confidence q q',
  )

  IsNoBetter-trans :
      (r s t : OptimizationRecommendation F) → IsNoBetter r s → IsNoBetter s t → IsNoBetter r t
  IsNoBetter-trans r s t (h, h') (k, k') = (
    laws.le_trans _ s.expected_improvement _ k h,
    λ e.
        laws.le_trans _ s.confidence _ (k' (laws.le_trans _ r.expected_improvement _ h e))
          (h' (laws.le_trans _ t.expected_improvement _ e k)),
  )

  above_asymm :
      (r s : OptimizationRecommendation F) → ranks_above r s ≡ true → ranks_above s r ≡ false
  above_asymm r s h = ground (
    arith,
    h,
    laws.feq-le_both r.expected_improvement s.expected_improvement,
    laws.feq-le_both s.expected_improvement r.expected_improvement,
    le_of_lt-lt_asymm laws s.expected_improvement r.expected_improvement,
    le_of_lt-lt_asymm laws s.confidence r.confidence,
  )

  above_trans :
      (r s t : OptimizationRecommendation F)
      → IsScored r
      → IsScored s
      → IsScored t
      → ranks_above s r ≡ false
      → ranks_above t s ≡ false
      → ranks_above t r ≡ false
  above_trans r s t p q o h k = not_above-of_IsNoBetter r t p o (
      IsNoBetter-trans r s t (IsNoBetter-of_not_above r s p q h)
        (IsNoBetter-of_not_above s t q o k))

  All-IsNoBetter :
      (i : ℕ) (r : OptimizationRecommendation F) (rs : List (OptimizationRecommendation F))
      → IsScored r
      → All IsScored rs
      → All (λ s. ranks_above s r ≡ false) rs
      → All (IsNoBetter r) (renumber i rs)
  unfolding renumber
  All-IsNoBetter i r [] p ps hs = tt
  All-IsNoBetter i r (s ∷ rs) p (q, qs) (h, hs) =
      (IsNoBetter-of_not_above r s p q h, All-IsNoBetter (i + 1) r rs p qs hs)

  renumber-BestFirst :
      (i : ℕ) (rs : List (OptimizationRecommendation F))
      → All IsScored rs
      → Sorted ranks_above rs
      → BestFirst (renumber i rs)
  unfolding renumber
  renumber-BestFirst i [] ps hs = tt
  renumber-BestFirst i (r ∷ rs) (p, ps) (h, hs) =
      (All-IsNoBetter (i + 1) r rs p ps h, renumber-BestFirst (i + 1) rs ps hs)

  -- For results without NaN, the ranking holds exactly the given actions, each as often as it was
  -- given; no recommendation promises a greater improvement than one in front of it, and among
  -- equal improvements none has a greater confidence than one in front; and the priorities are 1, 2,
  -- 3 and so on in that order.
  pub score_actions-ranking :
      (actions : List (OptimizationAction F)) (results : List (CounterfactualResult F))
      → All IsMeasured results
      → let recs = score_actions actions results in
        Perm (actions_of recs) actions × BestFirst recs × (priorities_of recs ≡ numbers_from 1 recs)
  unfolding score_actions values
  score_actions-ranking actions results h =
      let recs = recommend_all (index_results results []) 1 actions in
      let scored =
        recommend_all-IsScored (index_results results []) 1 actions
          (index_results-IsMeasured results [] h tt) in
      let (perm, priorities) = score_actions-actions actions results in
      (
        perm,
        renumber-BestFirst 1 (sort_by ranks_above recs)
            (All-sort_by ranks_above IsScored recs scored)
            (sort_by-Sorted ranks_above IsScored above_asymm above_trans recs scored),
        priorities,
      )
