-- ===== src/Optimization/Scorer/Ranking.antt =====
-- The ranking that `score_actions` returns.
use mathlib.Core.List.Perm
use post_rag_drift_evaluator.Prelude.{
  ℕ, ◌+◌, ◌≡◌, refl, ap, sym, ◌∙◌, subst, List, [], ◌∷◌, map, Perm, arith, sort_by, sort_by-perm,
}
use post_rag_drift_evaluator.Float.{Float}
use post_rag_drift_evaluator.Dict.{Dict}
use post_rag_drift_evaluator.Models.Scenarios.{CounterfactualResult}
use post_rag_drift_evaluator.Models.Actions.{OptimizationAction, OptimizationRecommendation}
use post_rag_drift_evaluator.Optimization.Scorer.{
  recommend, recommend_all, index_results, ranks_above, renumber, score_actions,
}

-- i, i + 1, and so on, one number for each item.
abbrev pub numbers_from {ℓ} : {A : Type ℓ} → ℕ → List A → List ℕ
numbers_from i [] = []
numbers_from i (x ∷ xs) = i ∷ numbers_from (i + 1) xs

map-Perm {ℓ κ} :
    {A : Type ℓ} {B : Type κ} (f : A → B) {xs ys : List A} → Perm xs ys → Perm (map f xs) (map f ys)
map-Perm f p = Perm.map f p

module _ {F : Type 0} where
  abbrev pub actions_of : List (OptimizationRecommendation F) → List (OptimizationAction F)
  actions_of = map (λ r. r.action)

  abbrev pub priorities_of : List (OptimizationRecommendation F) → List ℕ
  priorities_of = map (λ r. r.priority)

module _ {F : Type 0} ⦃fl : Float F⦄ where
  renumber-priorities :
      (i : ℕ) (recs : List (OptimizationRecommendation F))
      → priorities_of (renumber i recs) ≡ numbers_from i recs
  unfolding renumber
  renumber-priorities i [] = refl
  renumber-priorities i (r ∷ recs) = ap (λ ns. i ∷ ns) (renumber-priorities (i + 1) recs)

  renumber-actions :
      (i : ℕ) (recs : List (OptimizationRecommendation F))
      → actions_of (renumber i recs) ≡ actions_of recs
  unfolding renumber
  renumber-actions i [] = refl
  renumber-actions i (r ∷ recs) = ap (λ ns. r.action ∷ ns) (renumber-actions (i + 1) recs)

  numbers_from-renumber :
      (i j : ℕ) (recs : List (OptimizationRecommendation F))
      → numbers_from i (renumber j recs) ≡ numbers_from i recs
  unfolding renumber
  numbers_from-renumber i j [] = refl
  numbers_from-renumber i j (r ∷ recs) =
      ap (λ ns. i ∷ ns) (numbers_from-renumber (i + 1) (j + 1) recs)

  recommend-action :
      (d : Dict (CounterfactualResult F)) (i : ℕ) (a : OptimizationAction F)
      → (recommend d i a).action ≡ a
  unfolding recommend
  recommend-action d i a = ground arith

  recommend_all-actions :
      (d : Dict (CounterfactualResult F)) (i : ℕ) (actions : List (OptimizationAction F))
      → actions_of (recommend_all d i actions) ≡ actions
  unfolding recommend_all
  recommend_all-actions d i [] = refl
  recommend_all-actions d i (a ∷ actions) =
      rw recommend-action (ap (λ ns. a ∷ ns) (recommend_all-actions d (i + 1) actions))

  -- The ranking holds exactly the given actions, each as often as it was given, and its priorities
  -- are 1, 2, 3 and so on in the order of the list.
  pub score_actions-actions :
      (actions : List (OptimizationAction F)) (results : List (CounterfactualResult F))
      → Perm (actions_of (score_actions actions results)) actions
        × (priorities_of (score_actions actions results)
            ≡ numbers_from 1 (score_actions actions results))
  unfolding score_actions
  score_actions-actions actions results =
      let recs = recommend_all (index_results results []) 1 actions in
      let sorted = sort_by ranks_above recs in
      (
        subst (λ xs. Perm (actions_of (renumber 1 sorted)) xs)
            (recommend_all-actions (index_results results []) 1 actions)
            (subst (λ xs. Perm xs (actions_of recs)) (sym (renumber-actions 1 sorted))
              (map-Perm (λ r. r.action) (sort_by-perm ranks_above recs))),
        renumber-priorities 1 sorted ∙ sym (numbers_from-renumber 1 1 sorted),
      )
