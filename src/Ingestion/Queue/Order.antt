-- ===== src/Ingestion/Queue/Order.antt =====
-- The order of the frames on their way through the buffer (ingestion/queue.py).
use post_rag_drift_evaluator.Prelude.{
  ℕ, zero, suc, ◌-◌, ◌≡◌, refl, sym, ap, ◌∙◌, Bool, true, false, ◌&&◌, List, [], ◌∷◌, ◌++◌, map,
  inl, inr, Bool-cases, append_assoc, append-nil, if◌then◌else◌,
}
use post_rag_drift_evaluator.Ingestion.Queue.{
  Item, frame, stop, AsyncIngestionBuffer, init, enqueue, start_worker, drain, flush, turn,
  run_once, signal_stop,
}

module _ {ℓ} {A : Type ℓ} where
  -- The frames among the queued items.
  abbrev pub frames_of : List (Item A) → List A
  frames_of [] = []
  frames_of (frame a ∷ q) = a ∷ frames_of q
  frames_of (stop ∷ q) = frames_of q

  -- The frames that were handed to the repository, then those that wait.
  abbrev pub seen : AsyncIngestionBuffer A → List A
  seen b = map (λ e. e.0) b.written ++ frames_of b.queue

  -- One call or turn, with the frames that it accepts.
  pub data Step : AsyncIngestionBuffer A → List A → AsyncIngestionBuffer A → Type ℓ where
    enqueued : (frames : List A) {b : AsyncIngestionBuffer A} → Step b frames (enqueue frames b)
    started : {b : AsyncIngestionBuffer A} → Step b [] (start_worker b)
    turned : (persisted : Bool) {b : AsyncIngestionBuffer A} → Step b [] (run_once persisted b)
    signalled : {b : AsyncIngestionBuffer A} → Step b [] (signal_stop b)

  pub data Steps (b : AsyncIngestionBuffer A) : List A → AsyncIngestionBuffer A → Type ℓ where
    start : Steps b [] b
    next :
        {xs ys : List A} {b' b'' : AsyncIngestionBuffer A}
        → Steps b xs b'
        → Step b' ys b''
        → Steps b (xs ++ ys) b''

  frames_of-append : (q r : List (Item A)) → frames_of (q ++ r) ≡ frames_of q ++ frames_of r
  frames_of-append [] r = refl
  frames_of-append (frame a ∷ q) r = ap (λ xs. a ∷ xs) (frames_of-append q r)
  frames_of-append (stop ∷ q) r = frames_of-append q r

  frames_of-map : (xs : List A) → frames_of (map frame xs) ≡ xs
  frames_of-map [] = refl
  frames_of-map (x ∷ xs) = ap (λ ys. x ∷ ys) (frames_of-map xs)

  pub drain-frames_of :
      (room : ℕ) (q : List (Item A))
      → (drain room q).batch ++ frames_of (drain room q).rest ≡ frames_of q
  unfolding drain
  drain-frames_of zero q = refl
  drain-frames_of (suc room) [] = refl
  drain-frames_of (suc room) (stop ∷ q) = refl
  drain-frames_of (suc room) (frame a ∷ q) = ap (λ xs. a ∷ xs) (drain-frames_of room q)

  map-append_log :
      (log : List (A × Bool)) (ok : Bool) (xs : List A)
      → map (λ e. e.0) (log ++ map (λ a. (a, ok)) xs) ≡ map (λ e. e.0) log ++ xs
  map-append_log [] ok [] = refl
  map-append_log [] ok (x ∷ xs) = ap (λ ys. x ∷ ys) (map-append_log [] ok xs)
  map-append_log (e ∷ log) ok xs = ap (λ ys. e.0 ∷ ys) (map-append_log log ok xs)

  seen-turn :
      (persisted : Bool) (q : List (Item A)) (b : AsyncIngestionBuffer A)
      → b.queue ≡ q
      → seen (turn persisted q b) ≡ seen b
  unfolding turn flush
  seen-turn persisted [] b h = refl
  seen-turn persisted (stop ∷ q) b h = ap (λ r. map (λ e. e.0) b.written ++ frames_of r) (sym h)
  seen-turn persisted (frame a ∷ q) b h =
      let d = drain (b.batch_size - 1) q in
      ap (λ xs. xs ++ frames_of d.rest)
        (map-append_log b.written (b.has_repo && persisted) (a ∷ d.batch))
      ∙ append_assoc (map (λ e. e.0) b.written) (a ∷ d.batch) (frames_of d.rest)
      ∙ ap (λ xs. map (λ e. e.0) b.written ++ a ∷ xs) (drain-frames_of (b.batch_size - 1) q)
      ∙ ap (λ r. map (λ e. e.0) b.written ++ frames_of r) (sym h)

  pub run_once-running :
      (persisted : Bool) (b : AsyncIngestionBuffer A)
      → b.running ≡ true
      → run_once persisted b ≡ turn persisted b.queue b
  unfolding run_once
  run_once-running persisted b e = ap (λ r. if r then turn persisted b.queue b else b) e

  pub run_once-stopped :
      (persisted : Bool) (b : AsyncIngestionBuffer A) → b.running ≡ false → run_once persisted b ≡ b
  unfolding run_once
  run_once-stopped persisted b e = ap (λ r. if r then turn persisted b.queue b else b) e

  pub seen-run_once :
      (persisted : Bool) (b : AsyncIngestionBuffer A) → seen (run_once persisted b) ≡ seen b
  seen-run_once persisted b = elim (Bool-cases b.running) [
    | inl e ↦ ap seen (run_once-running persisted b e) ∙ seen-turn persisted b.queue b refl
    | inr e ↦ ap seen (run_once-stopped persisted b e)
  ]

  seen-queue :
      (b : AsyncIngestionBuffer A) (q : List (Item A))
      → seen (record b { queue = b.queue ++ q }) ≡ seen b ++ frames_of q
  seen-queue b q =
      ap (λ xs. map (λ e. e.0) b.written ++ xs) (frames_of-append b.queue q)
      ∙ sym (append_assoc (map (λ e. e.0) b.written) (frames_of b.queue) (frames_of q))

  seen-start_worker : (b : AsyncIngestionBuffer A) → seen (start_worker b) ≡ seen b
  unfolding start_worker
  seen-start_worker b = elim (Bool-cases b.running) [
    | inl e ↦ ap (λ r. seen (if r then b else record b { has_repo = true; running = true })) e
    | inr e ↦ ap (λ r. seen (if r then b else record b { has_repo = true; running = true })) e
  ]

  seen-signal_stop : (b : AsyncIngestionBuffer A) → seen (signal_stop b) ≡ seen b
  unfolding signal_stop
  seen-signal_stop b = elim (Bool-cases b.running) [
    | inl e ↦
        ap (λ r. seen (if r then record b { queue = b.queue ++ stop ∷ [] } else b)) e
        ∙ seen-queue b (stop ∷ [])
        ∙ append-nil (seen b)
    | inr e ↦ ap (λ r. seen (if r then record b { queue = b.queue ++ stop ∷ [] } else b)) e
  ]

  Step-seen : {b b' : AsyncIngestionBuffer A} {xs : List A} → Step b xs b' → seen b' ≡ seen b ++ xs
  unfolding enqueue
  Step-seen (enqueued frames {b}) =
      seen-queue b (map frame frames) ∙ ap (λ xs. seen b ++ xs) (frames_of-map frames)
  Step-seen (started {b}) = seen-start_worker b ∙ sym (append-nil (seen b))
  Step-seen (turned persisted {b}) = seen-run_once persisted b ∙ sym (append-nil (seen b))
  Step-seen (signalled {b}) = seen-signal_stop b ∙ sym (append-nil (seen b))

  -- Whatever calls and turns of the worker follow each other from a new buffer, the frames that were
  -- handed to the repository followed by those that wait are exactly the accepted ones, in the order
  -- of their acceptance: none is lost from the queue, doubled or overtaken.
  pub Steps-seen :
      (n : ℕ) {b : AsyncIngestionBuffer A} {xs : List A} → Steps (init n) xs b → seen b ≡ xs
  unfolding init
  Steps-seen n start = refl
  Steps-seen n (next {xs} {ys} {b'} {b''} s t) = Step-seen t ∙ ap (λ zs. zs ++ ys) (Steps-seen n s)
