-- ===== src/Optimization/Engine/Selection.antt =====
-- Which action the engine selects.
use mathlib.Core.List.{Memᴰ}
use mathlib.Core.List.Memᴰ
use post_rag_drift_evaluator.Prelude.{
  ◌≡◌, ◌↔◌, refl, sym, subst, ap, Bool, true, false, none, some, List, [], ◌∷◌, arith, All, inl,
  inr, Bool-cases, keep, if◌then◌else◌, All-keep,
}
use post_rag_drift_evaluator.Result.{ok, Result-cases}
use post_rag_drift_evaluator.Float.{Float, IsNum, IsOrdered}
use post_rag_drift_evaluator.Float.Order.{lt_irrefl, not-lt_trans, le_of_lt-lt_asymm}
use post_rag_drift_evaluator.Value.{Value}
use post_rag_drift_evaluator.Models.Records.{DriftEvent}
use post_rag_drift_evaluator.Models.Scenarios.{CounterfactualResult}
use post_rag_drift_evaluator.Models.Actions.{OptimizationAction}
use post_rag_drift_evaluator.Optimization.Engine.{
  OptimizationEngine, track_of, confident, action_for, best_of, select_best, select_action,
}

module _ {ℓ} {A : Type ℓ} (p : A → Bool) where
  pub Mem-of_keep : (x : A) (xs : List A) → Memᴰ x (keep p xs) → (p x ≡ true) × Memᴰ x xs
  Mem-of_keep x [] m = absurd (Memᴰ.not-nil m)
  Mem-of_keep x (y ∷ ys) m = elim (Bool-cases (p y)) [
    | inl e ↦
        elim (Memᴰ.cases_cons (subst (λ b. Memᴰ x (if b then y ∷ keep p ys else keep p ys)) e m)) [
          | inl same ↦ (rw same e, Memᴰ.head same)
          | inr later ↦ let found = Mem-of_keep x ys later in (found.0, Memᴰ.tail found.1)
        ]
    | inr e ↦
        let found =
          Mem-of_keep x ys (subst (λ b. Memᴰ x (if b then y ∷ keep p ys else keep p ys)) e m) in
        (found.0, Memᴰ.tail found.1)
  ]

module _ {ℓ} {A : Type ℓ} where
  pub All-Mem {κ} : (Q : A → Type κ) (x : A) (xs : List A) → All Q xs → Memᴰ x xs → Q x
  All-Mem Q x [] h m = absurd (Memᴰ.not-nil m)
  All-Mem Q x (y ∷ ys) (h, hs) m = elim (Memᴰ.cases_cons m) [
    | inl same ↦ subst Q (sym same) h
    | inr later ↦ All-Mem Q x ys hs later
  ]

module _ {F : Type 0} ⦃fl : Float F⦄ where
  open fl use {lt, le}

  -- The result's improvement is not below that of any confident result.
  pub record IsBest (engine : OptimizationEngine F) (results : List (CounterfactualResult F))
      (r : CounterfactualResult F) : Type 0 where
    pub is_confident : confident engine r ≡ true
    pub is_listed : Memᴰ r results
    pub not_beaten : All (λ s. lt r.delta s.delta ≡ false) (keep (confident engine) results)

  keep-none :
      (engine : OptimizationEngine F) (results : List (CounterfactualResult F))
      → (keep (confident engine) results ≡ []) ↔ All (λ r. confident engine r ≡ false) results
  keep-none engine [] = (λ e. tt, λ h. refl)
  keep-none engine (r ∷ results) =
      let rest = keep-none engine results in ground (arith, rest.0, rest.1)

  select_best-none :
      (engine : OptimizationEngine F) (track : Value F) (results : List (CounterfactualResult F))
      → (select_best engine track results ≡ ok none) ↔ (results ≡ [])
  unfolding select_best
  select_best-none engine track [] = (λ e. refl, λ e. refl)
  select_best-none engine track (r ∷ results) =
      elim (Result-cases (action_for engine track (best_of r results))) [
        | inl (a, e) ↦ rw (e, select_best) (λ x. absurd (ground arith), λ x. absurd (ground arith))
        | inr (x, e) ↦ rw (e, select_best) (λ x. absurd (ground arith), λ x. absurd (ground arith))
      ]

  -- The engine selects no action exactly when no result reaches its least confidence.
  pub select_action-none_iff :
      (engine : OptimizationEngine F) (e : DriftEvent F) (results : List (CounterfactualResult F))
      → (select_action engine e results ≡ ok none) ↔ All (λ r. confident engine r ≡ false) results
  unfolding select_action
  select_action-none_iff engine e results =
      let best = select_best-none engine (track_of e) (keep (confident engine) results) in
      let kept = keep-none engine results in (λ h. kept.0 (best.0 h), λ h. best.1 (kept.1 h))

  best_of-above :
      (best r : CounterfactualResult F) (results : List (CounterfactualResult F))
      → lt best.delta r.delta ≡ true
      → best_of best (r ∷ results) ≡ best_of r results
  unfolding best_of
  best_of-above best r results e = ap (λ b. best_of (if b then r else best) results) e

  best_of-not_above :
      (best r : CounterfactualResult F) (results : List (CounterfactualResult F))
      → lt best.delta r.delta ≡ false
      → best_of best (r ∷ results) ≡ best_of best results
  unfolding best_of
  best_of-not_above best r results e = ap (λ b. best_of (if b then r else best) results) e

  pub best_of-Mem :
      (best : CounterfactualResult F) (results : List (CounterfactualResult F))
      → Memᴰ (best_of best results) (best ∷ results)
  unfolding best_of
  best_of-Mem best [] = Memᴰ.head refl
  best_of-Mem best (r ∷ results) = elim (Bool-cases (lt best.delta r.delta)) [
    | inl e ↦ rw e (Memᴰ.tail (best_of-Mem r results))
    | inr e ↦ rw e (elim (Memᴰ.cases_cons (best_of-Mem best results)) [
      | inl same ↦ Memᴰ.head same
      | inr later ↦ Memᴰ.tail (Memᴰ.tail later)
    ])
  ]

  module _ (laws : IsOrdered F) where
    best_of-greatest :
        (best : CounterfactualResult F) (results : List (CounterfactualResult F))
        → IsNum best.delta
        → All (λ r. IsNum r.delta) results
        → All (λ s. lt (best_of best results).delta s.delta ≡ false) (best ∷ results)
    unfolding best_of
    best_of-greatest best [] h hs = (lt_irrefl laws best.delta, tt)
    best_of-greatest best (r ∷ results) h (k, hs) = elim (Bool-cases (lt best.delta r.delta)) [
      | inl e ↦
          let rest = best_of-greatest r results k hs in
          let m =
            All-Mem (λ s. IsNum s.delta) (best_of r results) (r ∷ results) (k, hs)
              (best_of-Mem r results) in
          subst (λ b. All (λ s. lt b.delta s.delta ≡ false) (best ∷ r ∷ results))
            (sym (best_of-above best r results e))
            (
              not-lt_trans laws _ r.delta best.delta m k h rest.0
                  (le_of_lt-lt_asymm laws best.delta r.delta e),
              rest,
            )
      | inr e ↦
          let rest = best_of-greatest best results h hs in
          let m =
            All-Mem (λ s. IsNum s.delta) (best_of best results) (best ∷ results) (h, hs)
              (best_of-Mem best results) in
          subst (λ b. All (λ s. lt b.delta s.delta ≡ false) (best ∷ r ∷ results))
            (sym (best_of-not_above best r results e))
            (rest.0, (not-lt_trans laws _ best.delta r.delta m h k rest.0 e, rest.1))
    ]

    -- The selection among the kept results.
    select_best-IsBest :
        (engine : OptimizationEngine F) (track : Value F)
        (results kept : List (CounterfactualResult F)) (a : OptimizationAction F)
        → All (λ r. IsNum r.delta) results
        → keep (confident engine) results ≡ kept
        → select_best engine track kept ≡ ok (some a)
        → (r : CounterfactualResult F) × IsBest engine results r
          × (action_for engine track r ≡ ok a)
    unfolding select_best
    select_best-IsBest engine track results [] a nums k s = absurd (ground arith)
    select_best-IsBest engine track results (r ∷ rest) a nums k s =
        let best = best_of r rest in
        let kept_nums : All (λ s. IsNum s.delta) (r ∷ rest) =
          subst (All (λ s. IsNum s.delta)) k
            (All-keep (λ s. IsNum s.delta) (confident engine) results nums) in
        let found =
          Mem-of_keep (confident engine) best results
            (subst (Memᴰ best) (sym k) (best_of-Mem r rest)) in
        let top = best_of-greatest r rest kept_nums.0 kept_nums.1 in
        (
          best,
          record {
            is_confident = found.0;
            is_listed = found.1;
            not_beaten = (subst (All (λ s. lt best.delta s.delta ≡ false)) (sym k) top);
          },
          elim (Result-cases (action_for engine track best)) [
            | inl (a', f) ↦ ground (arith, f, s)
            | inr (x, f) ↦ absurd (ground (arith, f, s))
          ],
        )

    -- An action that the engine selects is made from a listed result that reaches the least
    -- confidence and whose improvement no other such result exceeds, if the improvements are
    -- numbers.
    pub select_action-IsBest :
        (engine : OptimizationEngine F) (e : DriftEvent F) (results : List (CounterfactualResult F))
        (a : OptimizationAction F)
        → All (λ r. IsNum r.delta) results
        → select_action engine e results ≡ ok (some a)
        → (r : CounterfactualResult F) × IsBest engine results r
          × (action_for engine (track_of e) r ≡ ok a)
    unfolding select_action
    select_action-IsBest engine e results a nums h =
        select_best-IsBest engine (track_of e) results (keep (confident engine) results) a nums refl
          h
