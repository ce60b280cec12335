-- ===== src/Ingestion/Queue/Stop.antt =====
-- The shutdown of the worker (ingestion/queue.py).
use post_rag_drift_evaluator.Prelude.{
  ℕ, zero, suc, ◌-◌, ◌<◌, ◌≤◌, ◌≡◌, ◌⊎◌, refl, sym, ap, ◌∙◌, subst, Bool, true, false, not, List,
  [], ◌∷◌, ◌++◌, map, arith, inl, inr, append-nil, length,
}
use post_rag_drift_evaluator.Ingestion.Queue.{
  Item, frame, stop, AsyncIngestionBuffer, drain, flush, turn, run_once, run,
}
use post_rag_drift_evaluator.Ingestion.Queue.Order.{
  frames_of, seen, run_once-running, run_once-stopped, seen-run_once,
}

module _ {ℓ} {A : Type ℓ} where
  -- Frames that wait, with the signal to stop behind them.
  abbrev pub closing : List A → List (Item A)
  closing [] = stop ∷ []
  closing (x ∷ xs) = frame x ∷ closing xs

  frames_of-closing : (xs : List A) → frames_of (closing xs) ≡ xs
  frames_of-closing [] = refl
  frames_of-closing (x ∷ xs) = ap (λ ys. x ∷ ys) (frames_of-closing xs)

  -- What a drain leaves of a closing queue.
  drain-closing :
      (room : ℕ) (xs : List A)
      → ((drain room (closing xs)).saw_stop ≡ true) × ((drain room (closing xs)).rest ≡ [])
        ⊎ ((ys : List A) × ((drain room (closing xs)).saw_stop ≡ false)
            × ((drain room (closing xs)).rest ≡ closing ys)
            × (length ys ≤ length xs))
  unfolding drain
  drain-closing zero xs = inr (xs, refl, refl, omega arith)
  drain-closing (suc room) [] = inl (refl, refl)
  drain-closing (suc room) (x ∷ xs) = elim (drain-closing room xs) [
    | inl h ↦ inl h
    | inr (ys, s, r, l) ↦ inr (ys, s, r, omega arith)
  ]

  run-stopped :
      (fuel : ℕ) (persisted : ℕ → Bool) (b : AsyncIngestionBuffer A)
      → b.running ≡ false
      → run fuel persisted b ≡ b
  unfolding run
  run-stopped zero persisted b h = refl
  run-stopped (suc fuel) persisted b h =
      ap (run fuel (λ i. persisted (suc i))) (run_once-stopped (persisted 0) b h)
      ∙ run-stopped fuel (λ i. persisted (suc i)) b h

  seen-run :
      (fuel : ℕ) (persisted : ℕ → Bool) (b : AsyncIngestionBuffer A)
      → seen (run fuel persisted b) ≡ seen b
  unfolding run
  seen-run zero persisted b = refl
  seen-run (suc fuel) persisted b =
      seen-run fuel (λ i. persisted (suc i)) (run_once (persisted 0) b)
      ∙ seen-run_once (persisted 0) b

  -- The worker is done and nothing waits.
  abbrev pub IsClosed : AsyncIngestionBuffer A → Type ℓ
  IsClosed b = (b.queue ≡ []) × (b.running ≡ false)

  run-IsClosed :
      (fuel : ℕ) (persisted : ℕ → Bool) (b : AsyncIngestionBuffer A) (xs : List A)
      → b.running ≡ true
      → b.queue ≡ closing xs
      → length xs < fuel
      → IsClosed (run fuel persisted b)
  unfolding run turn flush
  run-IsClosed zero persisted b xs r q h = absurd (omega arith)
  run-IsClosed (suc fuel) persisted b [] r q h =
      let now = run_once-running (persisted 0) b r ∙ ap (λ p. turn (persisted 0) p b) q in
      let left : AsyncIngestionBuffer A = record b { queue = []; running = false } in
      subst (λ c. IsClosed (run fuel (λ i. persisted (suc i)) c)) (sym now)
        (subst IsClosed (sym (run-stopped fuel (λ i. persisted (suc i)) left refl)) (refl, refl))
  run-IsClosed (suc fuel) persisted b (x ∷ xs) r q h =
      let later = λ (i : ℕ). persisted (suc i) in
      let now = run_once-running (persisted 0) b r ∙ ap (λ p. turn (persisted 0) p b) q in
      let left = turn (persisted 0) (closing (x ∷ xs)) b in
      subst (λ c. IsClosed (run fuel later c)) (sym now)
        (elim (drain-closing (b.batch_size - 1) xs) [
          | inl (s, e) ↦ subst IsClosed (sym (run-stopped fuel later left (ap not s))) (e, ap not s)
          | inr (ys, s, e, l) ↦ run-IsClosed fuel later left ys (ap not s) e (omega arith)
        ])

  -- A running worker whose queue ends in the signal to stop hands every waiting frame to the
  -- repository, in order, leaves nothing in the queue and stops, within one turn more than there are
  -- frames, whatever the outcomes of the batches are.
  pub run-stops :
      (fuel : ℕ) (persisted : ℕ → Bool) (b : AsyncIngestionBuffer A) (xs : List A)
      → b.running ≡ true
      → b.queue ≡ closing xs
      → length xs < fuel
      → IsClosed (run fuel persisted b)
        × (map (λ e. e.0) (run fuel persisted b).written ≡ map (λ e. e.0) b.written ++ xs)
  run-stops fuel persisted b xs r q h =
      let closed = run-IsClosed fuel persisted b xs r q h in
      let after = run fuel persisted b in
      (
        closed,
        sym (append-nil (map (λ e. e.0) after.written))
            ∙ ap (λ p. map (λ e. e.0) after.written ++ frames_of p) (sym closed.0)
            ∙ seen-run fuel persisted b
            ∙ ap (λ p. map (λ e. e.0) b.written ++ p) (ap frames_of q ∙ frames_of-closing xs),
      )
