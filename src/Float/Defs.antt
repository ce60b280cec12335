-- ===== src/Float/Defs.antt =====
-- The interface of Python's `float`: see the parent module.
use post_rag_drift_evaluator.Prelude.{
  ℕ, String, List, Option, ◌&&◌, ◌≤◌, ◌≡◌, ◌⊎◌, Bool, true, not, if◌then◌else◌,
}

pub record Float (F : Type 0) : Type 0 where
  -- `decimal m k` is the literal m / 10^k
  pub decimal : ℕ → ℕ → F
  pub add : F → F → F
  pub sub : F → F → F
  pub mul : F → F → F
  -- `x ** 2`; `none` is an OverflowError
  pub square : F → Option F
  pub div : F → F → F
  pub abs : F → F
  pub sqrt : F → F
  -- `statistics.mean` of a list that is not empty, rounded once
  pub average : List F → F
  -- `round n x` is Python's round(x, n)
  pub round : ℕ → F → F
  pub lt : F → F → Bool
  pub le : F → F → Bool
  pub feq : F → F → Bool
  -- `str(x)`, and f'{x:.nf}'
  pub show : F → String
  pub format : ℕ → F → String

module _ {F : Type 0} ⦃fl : Float F⦄ where
  -- The built-in `min` and `max` of two: a later argument wins only by a strict comparison.
  abbrev pub fmin : F → F → F
  fmin a b = if fl.lt b a then b else a

  abbrev pub fmax : F → F → F
  fmax a b = if fl.lt a b then b else a

  -- NaN is the value that is not `<=` itself.
  abbrev pub IsNum : F → Type 0
  IsNum x = fl.le x x ≡ true

-- What IEEE 754 and `round` promise, and the theorems on orders use.
pub record IsOrdered (F : Type 0) ⦃fl : Float F⦄ : Type 0 where
  pub num_of_le : (x y : F) → fl.le x y ≡ true → IsNum x × IsNum y
  pub le_trans : (x y z : F) → fl.le x y ≡ true → fl.le y z ≡ true → fl.le x z ≡ true
  pub le_total : (x y : F) → IsNum x → IsNum y → (fl.le x y ≡ true) ⊎ (fl.le y x ≡ true)
  pub le_of_lt : (x y : F) → fl.lt x y ≡ true → fl.le x y ≡ true
  pub lt-eq-not-le : (x y : F) → IsNum x → IsNum y → fl.lt x y ≡ not (fl.le y x)
  pub decimal_mono : (m n k : ℕ) → m ≤ n → fl.le (fl.decimal m k) (fl.decimal n k) ≡ true
  pub round_mono : (n : ℕ) (x y : F) → fl.le x y ≡ true → fl.le (fl.round n x) (fl.round n y) ≡ true
  pub round-decimal : (n m : ℕ) → fl.round n (fl.decimal m 0) ≡ fl.decimal m 0
  -- NaN equals nothing
  pub feq-le_both : (x y : F) → fl.feq x y ≡ (fl.le x y && fl.le y x)
  -- subtraction of a literal keeps the order
  pub sub_mono :
      (x y : F) (m k : ℕ)
      → fl.le x y ≡ true
      → fl.le (fl.sub x (fl.decimal m k)) (fl.sub y (fl.decimal m k)) ≡ true
