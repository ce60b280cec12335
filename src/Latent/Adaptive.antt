-- ===== src/Latent/Adaptive.antt =====
-- evaluator/latent_drift/adaptive.py: `AdaptiveThresholdManager`.
pub mod Bounds
pub mod Window
use mathlib.Core.List.{foldl}
use post_rag_drift_evaluator.Prelude.{
  ℕ, ◌-◌, ◌<◌, Bool, Option, none, some, List, [], ◌∷◌, ◌++◌, map, ltb, if◌then◌else◌, length, drop,
}
use post_rag_drift_evaluator.Float.{Float, fmin, fmax}
use post_rag_drift_evaluator.Result.{Result, ok, err, overflow_error, ◌>>=◌}

-- `deque(maxlen=n).append(x)`: past the maximum the leftmost item goes.
unfoldable pub append_bounded {ℓ} : {A : Type ℓ} → ℕ → A → List A → List A
append_bounded n x d = let d' = d ++ x ∷ [] in if ltb n (length d') then drop 1 d' else d'

pub record AdaptiveThresholdManager (F : Type 0) : Type 0 where
  pub base_threshold : F
  pub sensitivity_z : F
  pub window_size : ℕ
  pub min_threshold : F
  pub max_threshold : F
  pub scores : List F

module _ {F : Type 0} where
  unfoldable pub init : F → F → ℕ → F → F → AdaptiveThresholdManager F
  init base z window lo hi = record {
    base_threshold = base;
    sensitivity_z = z;
    window_size = window;
    min_threshold = lo;
    max_threshold = hi;
    scores = [];
  }

  unfoldable pub update : F → AdaptiveThresholdManager F → AdaptiveThresholdManager F
  unfolding append_bounded
  update score m = record m { scores = append_bounded m.window_size score m.scores }

  unfoldable pub reset : AdaptiveThresholdManager F → AdaptiveThresholdManager F
  reset m = record m { scores = [] }

module _ {F : Type 0} ⦃fl : Float F⦄ where
  open fl use {decimal, add, sub, mul, div, sqrt, lt}

  -- The built-in `sum`, from 0.
  unfoldable pub sum : List F → F
  sum = foldl add (decimal 0 0)

  unfoldable pub mean : List F → F
  unfolding sum
  mean xs = div (sum xs) (decimal (length xs) 0)

  -- `(s - mean_score) ** 2`
  unfoldable pub square_deviation : F → F → Result F
  square_deviation m x = elim (fl.square (sub x m)) [ none ↦ err overflow_error | some y ↦ ok y ]

  unfoldable pub square_deviations : F → List F → Result (List F)
  unfolding square_deviation
  square_deviations m [] = ok []
  square_deviations m (x ∷ xs) = do
    y ← square_deviation m x
    ys ← square_deviations m xs
    ok (y ∷ ys)

  -- The sample variance, over n - 1.
  unfoldable pub variance : List F → Result F
  unfolding sum mean square_deviations
  variance xs = do
    ys ← square_deviations (mean xs) xs
    ok (div (sum ys) (decimal (length xs - 1) 0))

  -- The threshold before it is clamped.
  unfoldable pub raw_threshold : AdaptiveThresholdManager F → Result F
  unfolding mean variance
  raw_threshold m = do
    v ← variance m.scores
    ok (add (mean m.scores) (mul m.sensitivity_z (sqrt v)))

  unfoldable pub get_threshold : AdaptiveThresholdManager F → Result F
  unfolding raw_threshold
  get_threshold m =
      if ltb (length m.scores) 2
      then ok m.base_threshold
      else (do t ← raw_threshold m; ok (fmax m.min_threshold (fmin m.max_threshold t)))
