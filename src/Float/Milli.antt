-- ===== src/Float/Milli.antt =====
-- Numbers in thousandths, with a NaN: a concrete `Float`, on which the definitions run, and the
-- proof that the laws of `IsOrdered` can be met. It carries three decimals, so rounding to three
-- or more is the identity; the program rounds its scores to four and six.
use mathlib.Core.List.{foldl}
use post_rag_drift_evaluator.Prelude.{
  ℕ, zero, suc, String, some, List, [], ◌∷◌, concat, show_ℕ, three_digits, ◌+◌, ◌-◌, ◌*◌, ◌/◌, ◌≤◌,
  refl, Bool, false, arith, ltb, leb, ◌==◌, if◌then◌else◌,
}
use post_rag_drift_evaluator.Float.Defs.{Float, IsOrdered}

-- `pos n` is n / 1000, and `negsuc n` is -(n + 1) / 1000.
pub data Milli : Type 0 where
  nan : Milli
  pos : ℕ → Milli
  negsuc : ℕ → Milli

-- (a - b) / 1000
abbrev from_parts : ℕ → ℕ → Milli
from_parts a b = if leb b a then pos (a - b) else negsuc (b - a - 1)

abbrev on_parts : (ℕ → ℕ → ℕ → ℕ → Milli) → Milli → Milli → Milli
on_parts f (pos a) (pos b) = f a 0 b 0
on_parts f (pos a) (negsuc b) = f a 0 0 (suc b)
on_parts f (negsuc a) (pos b) = f 0 (suc a) b 0
on_parts f (negsuc a) (negsuc b) = f 0 (suc a) 0 (suc b)
on_parts f _ _ = nan

abbrev compare_by : (ℕ → ℕ → Bool) → Milli → Milli → Bool
compare_by f (pos a) (pos b) = f a b
compare_by f (pos a) (negsuc b) = f (a + suc b) 0
compare_by f (negsuc a) (pos b) = f 0 (b + suc a)
compare_by f (negsuc a) (negsuc b) = f (suc b) (suc a)
compare_by f _ _ = false

-- m / 10 ^ k, cut to a whole number
unfoldable pub shift : ℕ → ℕ → ℕ
shift zero m = m
shift (suc k) m = shift k (m / 10)

shift_mono : (k m n : ℕ) → m ≤ n → shift k m ≤ shift k n
unfolding shift
shift_mono zero m n h = h
shift_mono (suc k) m n h = shift_mono k (m / 10) (n / 10) (omega arith)

unfoldable pub thousandths : ℕ → ℕ → ℕ
unfolding shift
thousandths m zero = m * 1000
thousandths m (suc zero) = m * 100
thousandths m (suc (suc zero)) = m * 10
thousandths m (suc (suc (suc k))) = shift k m

thousandths_mono : (m n k : ℕ) → m ≤ n → thousandths m k ≤ thousandths n k
unfolding thousandths
thousandths_mono m n zero h = omega arith
thousandths_mono m n (suc zero) h = omega arith
thousandths_mono m n (suc (suc zero)) h = omega arith
thousandths_mono m n (suc (suc (suc k))) h = shift_mono k m n h

-- the greatest k <= fuel with k * k <= n
unfoldable pub root : ℕ → ℕ → ℕ
root zero n = 0
root (suc fuel) n = let rest = root fuel n in if leb (suc fuel * suc fuel) n then suc fuel else rest

abbrev sqrt : Milli → Milli
sqrt (pos a) = pos (root (a * 1000) (a * 1000))
sqrt _ = nan

abbrev abs : Milli → Milli
abs (negsuc a) = pos (suc a)
abs x = x

-- a / b in thousandths; a division by zero gives NaN here
abbrev quotient : ℕ → ℕ → ℕ → ℕ → Milli
quotient p n q zero = if q == 0 then nan else from_parts (p * 1000 / q) (n * 1000 / q)
quotient p n q (suc m) = from_parts (n * 1000 / suc m) (p * 1000 / suc m)

abbrev plus : Milli → Milli → Milli
plus = on_parts (λ p n q m. from_parts (p + q) (n + m))

-- the count, in thousandths
unfoldable pub count : List Milli → ℕ
count [] = 0
count (x ∷ xs) = 1000 + count xs

unfoldable pub average : List Milli → Milli
unfolding count
average xs = on_parts quotient (foldl plus (pos 0) xs) (pos (count xs))

unfoldable pub show_parts : String → ℕ → String
unfolding show_ℕ three_digits
show_parts sign n = concat (sign ∷ show_ℕ (n / 1000) ∷ "." ∷ three_digits n ∷ [])

abbrev show : Milli → String
show nan = "nan"
show (pos n) = show_parts "" n
show (negsuc n) = show_parts "-" (suc n)

instance unfoldable pub milli : Float Milli
unfolding thousandths root show_parts average
milli = record {
  decimal = λ m k. pos (thousandths m k);
  add = plus;
  sub = on_parts (λ p n q m. from_parts (p + m) (n + q));
  mul = on_parts (λ p n q m. from_parts ((p * q + n * m) / 1000) ((p * m + n * q) / 1000));
  square = λ x.
      some (on_parts (λ p n q m. from_parts ((p * q + n * m) / 1000) ((p * m + n * q) / 1000)) x x);
  div = on_parts quotient;
  abs = abs;
  sqrt = sqrt;
  average = average;
  round = λ n x. x;
  lt = compare_by ltb;
  le = compare_by leb;
  feq = compare_by ◌==◌;
  show = show;
  format = λ n x. show x;
}

pub Milli-IsOrdered : IsOrdered Milli
unfolding milli
Milli-IsOrdered = record {
  num_of_le = ground arith;
  le_trans = ground arith;
  le_total = ground arith;
  le_of_lt = ground arith;
  lt-eq-not-le = ground arith;
  decimal_mono = λ m n k h. ground (arith, thousandths_mono m n k h);
  round_mono = λ n x y h. h;
  round-decimal = λ n m. refl;
  feq-le_both = ground arith;
  sub_mono = λ x y m k h. ground (arith, h);
}
