-- ===== src/Latent/Adaptive/Window.antt =====
-- The rolling window of scores beside the list of all of them (evaluator/latent_drift/adaptive.py).
use mathlib.Core.List.{foldl}
use post_rag_drift_evaluator.Prelude.{
  ℕ, ◌+◌, ◌-◌, ◌≡◌, List, [], ◌∷◌, ◌++◌, arith, append_assoc, ap, sym, Bool-cases, inl, inr,
  append-nil, ltb, length, drop, length-append, length-drop, drop-append, drop-drop,
}
use post_rag_drift_evaluator.Latent.Adaptive.{
  AdaptiveThresholdManager, append_bounded, update, reset,
}

-- The last `n` items of a list.
abbrev pub last_n {ℓ} : {A : Type ℓ} → ℕ → List A → List A
last_n n xs = drop (length xs - n) xs

pub append_bounded-last_n {ℓ} :
    {A : Type ℓ} (n : ℕ) (x : A) (xs : List A)
    → append_bounded n x (last_n n xs) ≡ last_n n (xs ++ x ∷ [])
unfolding append_bounded
append_bounded-last_n n x xs =
    let k = length xs - n in
    let within : drop k xs ++ x ∷ [] ≡ drop k (xs ++ x ∷ []) =
      sym (drop-append k xs (x ∷ []) (omega arith)) in
    let size : length (drop k xs ++ x ∷ []) ≡ length (drop k xs) + 1 =
      length-append (drop k xs) (x ∷ []) in
    elim (Bool-cases (ltb n (length (drop k xs ++ x ∷ [])))) [
      | inl full ↦
          rw (full, within, drop-drop, length-append)
            (ap (λ i. drop i (xs ++ x ∷ [])) (ground (arith, length-drop k xs)))
      | inr room ↦
          rw (room, within, length-append)
            (ap (λ i. drop i (xs ++ x ∷ [])) (ground (arith, length-drop k xs)))
    ]

module _ {F : Type 0} where
  foldl-update-last_n :
      (m : AdaptiveThresholdManager F) (seen xs : List F)
      → m.scores ≡ last_n m.window_size seen
      → foldl (λ s x. update x s) m xs ≡ record m { scores = last_n m.window_size (seen ++ xs) }
  unfolding update
  foldl-update-last_n m seen [] h = rw (append-nil, ← h)
  foldl-update-last_n m seen (x ∷ xs) h =
      let m' = update x m in
      let h' : m'.scores ≡ last_n m.window_size (seen ++ x ∷ []) =
        rw h (append_bounded-last_n m.window_size x seen) in
      rw (foldl-update-last_n m' (seen ++ x ∷ []) xs h', append_assoc)

  -- After a reset and any scores, the window holds exactly the last `window_size` of them, in
  -- order, and the configuration is as before.
  pub foldl-update-reset :
      (m : AdaptiveThresholdManager F) (xs : List F)
      → foldl (λ s x. update x s) (reset m) xs ≡ record m { scores = last_n m.window_size xs }
  unfolding reset
  foldl-update-reset m xs = foldl-update-last_n (reset m) [] xs (ground arith)
