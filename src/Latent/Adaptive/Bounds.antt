-- ===== src/Latent/Adaptive/Bounds.antt =====
-- The bounds of the adaptive threshold (evaluator/latent_drift/adaptive.py).
use post_rag_drift_evaluator.Prelude.{
  ◌≤◌, ◌≡◌, refl, true, false, ltb, arith, length, List, [], ◌∷◌, none, some, Option, ◌⊎◌, inl, inr,
}
use post_rag_drift_evaluator.Float.{Float, IsOrdered, fmin, fmax}
use post_rag_drift_evaluator.Float.Order.{clamp_bounds}
use post_rag_drift_evaluator.Result.{Result, ok, err, overflow_error, ◌>>=◌}
use post_rag_drift_evaluator.Latent.Adaptive.{
  AdaptiveThresholdManager, mean, square_deviation, square_deviations, variance, raw_threshold,
  get_threshold,
}

module _ {F : Type 0} ⦃fl : Float F⦄ where
  -- One of the scores is so far from `m` that the square overflows.
  abbrev pub HasOverflow : F → List F → Type 0
  HasOverflow m [] = true ≡ false
  HasOverflow m (x ∷ xs) = (fl.square (fl.sub x m) ≡ none) ⊎ HasOverflow m xs

  -- A list of squares, or the overflow.
  abbrev IsSquared {ℓ} : {A : Type ℓ} → F → List F → Result A → Type 0
  IsSquared m xs (ok ys) = Unit
  IsSquared m xs (err e) = (e ≡ overflow_error) × HasOverflow m xs

  IsSquared-step :
      (m x : F) (xs : List F) (o : Option F) (r : Result (List F))
      → fl.square (fl.sub x m) ≡ o
      → IsSquared m xs r
      → IsSquared m
          (x ∷ xs)
          (do y ← elim o [ none ↦ err overflow_error | some y ↦ ok y ]; ys ← r; ok (y ∷ ys))
  IsSquared-step m x xs none r e h = (refl, inl e)
  IsSquared-step m x xs (some y) (ok ys) e h = tt
  IsSquared-step m x xs (some y) (err z) e (p, q) = (p, inr q)

  square_deviations-IsSquared : (m : F) (xs : List F) → IsSquared m xs (square_deviations m xs)
  unfolding square_deviations square_deviation
  square_deviations-IsSquared m [] = tt
  square_deviations-IsSquared m (x ∷ xs) =
      IsSquared-step m x xs (fl.square (fl.sub x m)) (square_deviations m xs) refl
        (square_deviations-IsSquared m xs)

  -- A threshold within the bounds, or the overflow of a square.
  abbrev pub IsClamped : AdaptiveThresholdManager F → Result F → Type 0
  IsClamped m (ok t) = (fl.le m.min_threshold t ≡ true) × (fl.le t m.max_threshold ≡ true)
  IsClamped m (err e) = (e ≡ overflow_error) × HasOverflow (mean m.scores) m.scores

module _ {F : Type 0} ⦃fl : Float F⦄ (laws : IsOrdered F) where
  open fl use {le}

  clamp-IsClamped :
      (m : AdaptiveThresholdManager F) (r : Result (List F)) (f : List F → F)
      → le m.min_threshold m.max_threshold ≡ true
      → IsSquared (mean m.scores) m.scores r
      → IsClamped m (do
        t ← (do
          v ← (do ys ← r; ok (f ys))
          ok (fl.add (mean m.scores) (fl.mul m.sensitivity_z (fl.sqrt v))))
        ok (fmax m.min_threshold (fmin m.max_threshold t)))
  clamp-IsClamped m (ok ys) f h s = clamp_bounds laws m.min_threshold m.max_threshold _ h
  clamp-IsClamped m (err e) f h s = s

  -- With two or more scores in the window and a lower bound that is not above the upper one, either
  -- the threshold lies between the bounds, whatever the scores are, NaN included, or an OverflowError
  -- is raised, and then the square of a score's distance to their mean overflows.
  pub get_threshold_bounds :
      (m : AdaptiveThresholdManager F)
      → 2 ≤ length m.scores
      → le m.min_threshold m.max_threshold ≡ true
      → IsClamped m (get_threshold m)
  unfolding get_threshold raw_threshold variance
  get_threshold_bounds m enough h =
      let full : ltb (length m.scores) 2 ≡ false = ground arith in
      rw full (
        clamp-IsClamped m (square_deviations (mean m.scores) m.scores) _ h
          (square_deviations-IsSquared (mean m.scores) m.scores))
