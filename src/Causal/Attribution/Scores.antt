-- ===== src/Causal/Attribution/Scores.antt =====
-- The scores of `score_causal_impact`: their range and their order.
use post_rag_drift_evaluator.Prelude.{
  ◌≡◌, true, List, [], ◌∷◌, map, All, All-sort_by, Sorted, length, length-map, length-sort_by,
  sort_by, sort_by-Sorted, arith, ◌∙◌,
}
use post_rag_drift_evaluator.Float.{Float, IsOrdered}
use post_rag_drift_evaluator.Float.Order.{
  clamp_bounds, round_bounds, not-lt_trans, le_of_lt-lt_asymm,
}
use post_rag_drift_evaluator.Models.Events.{CausalFactor}
use post_rag_drift_evaluator.Causal.Features.{Feature}
use post_rag_drift_evaluator.Causal.Attribution.{
  raw_score, factor_of, by_score, max_of, score_causal_impact,
}

module _ {F : Type 0} ⦃fl : Float F⦄ where
  open fl use {decimal, le}

  -- A score is a number between 0 and 1.
  abbrev pub ScoreInUnit : CausalFactor F → Type 0
  ScoreInUnit f = (le (decimal 0 0) f.score ≡ true) × (le f.score (decimal 1 0) ≡ true)

module _ {F : Type 0} ⦃fl : Float F⦄ (laws : IsOrdered F) where
  open fl use {decimal, le}

  factor_of-ScoreInUnit : (d m : F) (f : Feature F) → ScoreInUnit (factor_of d m f)
  unfolding factor_of
  factor_of-ScoreInUnit d m f =
      let b =
        clamp_bounds laws (decimal 0 0) (decimal 1 0) (raw_score d m f)
          (laws.decimal_mono 0 1 0 (omega arith)) in
      round_bounds laws 4 0 1 _ b.0 b.1

  factors-ScoreInUnit : (d m : F) (fs : List (Feature F)) → All ScoreInUnit (map (factor_of d m) fs)
  factors-ScoreInUnit d m [] = tt
  factors-ScoreInUnit d m (f ∷ fs) = (factor_of-ScoreInUnit d m f, factors-ScoreInUnit d m fs)

  factors_in_order :
      (fs : List (CausalFactor F))
      → All ScoreInUnit fs
      → All ScoreInUnit (sort_by by_score fs) × Sorted by_score (sort_by by_score fs)
  factors_in_order fs h =
      let num_of =
        λ (f : CausalFactor F) (b : ScoreInUnit f). (laws.num_of_le f.score (decimal 1 0) b.1).0 in
      (
        All-sort_by by_score ScoreInUnit fs h,
        sort_by-Sorted by_score ScoreInUnit (λ f g e. le_of_lt-lt_asymm laws g.score f.score e)
            (λ f g k hf hg hk e e'.
              not-lt_trans laws f.score g.score k.score (num_of f hf) (num_of g hg) (num_of k hk) e
                e')
            fs h,
      )

  -- `score_causal_impact` gives one factor per feature; every score is a number between 0 and 1,
  -- whatever the features hold, NaN included; and no factor stands behind one of a lower score.
  pub score_causal_impact-ranked :
      (features : List (Feature F))
      → (length (score_causal_impact features) ≡ length features)
        × All ScoreInUnit (score_causal_impact features)
        × Sorted by_score (score_causal_impact features)
  unfolding score_causal_impact
  score_causal_impact-ranked [] = (omega arith, tt, tt)
  score_causal_impact-ranked (f ∷ fs) =
      let d = max_of f.time_delta (map (λ (g : Feature F). g.time_delta) fs) in
      let m = max_of f.drift_magnitude (map (λ (g : Feature F). g.drift_magnitude) fs) in
      let ordered =
        factors_in_order (map (factor_of d m) (f ∷ fs)) (factors-ScoreInUnit d m (f ∷ fs)) in
      (
        length-sort_by by_score (map (factor_of d m) (f ∷ fs))
            ∙ length-map (factor_of d m) (f ∷ fs),
        ordered.0,
        ordered.1,
      )
