-- ===== src/Float/Order.antt =====
-- What follows from `IsOrdered` for the built-in `min`, `max` and the clamps made of them.
use post_rag_drift_evaluator.Prelude.{ℕ, ◌≡◌, true, false, inl, inr, arith, Bool-cases}
use post_rag_drift_evaluator.Float.Defs.{Float, fmin, fmax, IsNum, IsOrdered}

module _ {F : Type 0} ⦃fl : Float F⦄ (laws : IsOrdered F) where
  open fl use {lt, le}

  -- max(lo, min(hi, x)) lies between the bounds whatever `x` is, NaN included.
  pub clamp_bounds :
      (lo hi x : F)
      → le lo hi ≡ true
      → (le lo (fmax lo (fmin hi x)) ≡ true) × (le (fmax lo (fmin hi x)) hi ≡ true)
  clamp_bounds lo hi x h =
      ground
        (arith, laws.num_of_le lo hi h, laws.le_of_lt x hi, laws.le_of_lt lo x, laws.le_of_lt lo hi)

  -- max(lo, x) of a number is at least both.
  pub le-fmax_left : (a b : F) → IsNum a → le a (fmax a b) ≡ true
  le-fmax_left a b h = ground (arith, laws.le_of_lt a b)

  -- Between numbers, `not a < b` is `b <= a`.
  pub le_of_not-lt : (a b : F) → IsNum a → IsNum b → lt a b ≡ false → le b a ≡ true
  le_of_not-lt a b ha hb h = ground (arith, laws.lt-eq-not-le a b ha hb)

  pub not-lt_trans :
      (a b c : F) → IsNum a → IsNum b → IsNum c → lt a b ≡ false → lt b c ≡ false → lt a c ≡ false
  not-lt_trans a b c ha hb hc h k = ground (
    arith,
    laws.lt-eq-not-le a c ha hc,
    laws.le_trans c b a (le_of_not-lt b c hb hc k) (le_of_not-lt a b ha hb h),
  )

  pub lt_irrefl : (a : F) → lt a a ≡ false
  lt_irrefl a = elim (Bool-cases (lt a a)) [
    | inl e ↦ let n = laws.le_of_lt a a e in ground (arith, laws.lt-eq-not-le a a n n)
    | inr e ↦ e
  ]

  pub lt_of_lt-le : (a b c : F) → lt a b ≡ true → le b c ≡ true → lt a c ≡ true
  lt_of_lt-le a b c h k =
      let ab = laws.le_of_lt a b h in
      let na = (laws.num_of_le a b ab).0 in
      let nb = (laws.num_of_le a b ab).1 in
      let nc = (laws.num_of_le b c k).1 in
      ground
        (arith, laws.lt-eq-not-le a b na nb, laws.lt-eq-not-le a c na nc, laws.le_trans b c a k)

  pub le_of_lt-lt_asymm : (a b : F) → lt a b ≡ true → lt b a ≡ false
  le_of_lt-lt_asymm a b h =
      let ab = laws.le_of_lt a b h in
      let na = (laws.num_of_le a b ab).0 in
      let nb = (laws.num_of_le a b ab).1 in ground (arith, laws.lt-eq-not-le b a nb na)

  -- min(1, max(0, x)) lies between 0 and 1 whatever `x` is, NaN included.
  pub unit_bounds :
      (x : F)
      → (le (fl.decimal 0 0) (fmin (fl.decimal 1 0) (fmax (fl.decimal 0 0) x)) ≡ true)
        × (le (fmin (fl.decimal 1 0) (fmax (fl.decimal 0 0) x)) (fl.decimal 1 0) ≡ true)
  unit_bounds x =
      let zero_one = laws.decimal_mono 0 1 0 (omega arith) in
      let nums = laws.num_of_le (fl.decimal 0 0) (fl.decimal 1 0) zero_one in
      ground (
        arith,
        zero_one,
        nums,
        laws.le_of_lt (fl.decimal 0 0) x,
        laws.le_of_lt x (fl.decimal 1 0),
        laws.le_of_lt (fl.decimal 0 0) (fl.decimal 1 0),
      )

  -- Rounding keeps a number between two whole ones.
  pub round_bounds :
      (n lo hi : ℕ) (x : F)
      → le (fl.decimal lo 0) x ≡ true
      → le x (fl.decimal hi 0) ≡ true
      → (le (fl.decimal lo 0) (fl.round n x) ≡ true) × (le (fl.round n x) (fl.decimal hi 0) ≡ true)
  round_bounds n lo hi x h k =
      let below = laws.round_mono n (fl.decimal lo 0) x h in
      let above = laws.round_mono n x (fl.decimal hi 0) k in
      rw (← laws.round-decimal n lo, ← laws.round-decimal n hi) (below, above)
