-- ===== src/Ingestion/Stream/Drain.antt =====
-- What the worker of ingestion/redis_queue.py stores while the server and the repository answer.
use post_rag_drift_evaluator.Prelude.{
  ℕ, zero, suc, ◌+◌, ◌≤◌, ◌<◌, ◌≡◌, ◌≢◌, refl, sym, ◌∙◌, ap, subst, true, false, ◌&&◌, ◌⊎◌, inl,
  inr, Option, none, some, List, [], ◌∷◌, length, ltb, leb, ◌==◌, arith, Bool-cases, if◌then◌else◌,
}
use post_rag_drift_evaluator.Ingestion.Stream.Server.{
  Message, frame, no_frame, bad_json, bad_utf8, Redis, Documented, member, entry, IsDelivery,
  IsRead,
}
use post_rag_drift_evaluator.Ingestion.Stream.{
  answered, Faults, System, RedisStreamBuffer, collect, flush, finish, receive, run_once, run,
}
use post_rag_drift_evaluator.Ingestion.Stream.Ascending.{ids}
use post_rag_drift_evaluator.Ingestion.Stream.Tracking.{
  is_frame, is_frame-lt, collect-stream, collect-cursor, collect-IsBatch,
}
use post_rag_drift_evaluator.Ingestion.Stream.Delivery.{
  IsTracked, Step, turned, Steps, here, next, Steps-IsTracked, Step-IsTracked,
}
use post_rag_drift_evaluator.Ingestion.Stream.Loss.{Steps-IsKept}

-- From a number on, every message is text.
abbrev pub IsText : {A : Type 0} → ℕ → List (Message A) → Type 0
IsText c es = (i : ℕ) → c ≤ i → entry i es ≢ some bad_utf8

-- The worker runs, with a repository.
abbrev pub IsReady : RedisStreamBuffer → Type 0
IsReady b = (b.running ≡ true) × (b.has_repo ≡ true) × (1 ≤ b.batch_size)

-- A read does not raise while there is a group.
abbrev pub IsUp : (S A : Type 0) ⦃r : Redis S A⦄ → Type 0
IsUp S A ⦃r⦄ = (n c : ℕ) (s : S) → r.cursor s ≡ some c → (r.xreadgroup n s).0 ≢ none

-- Every call of a turn returns.
abbrev pub all_answered : Faults
all_answered = record { store = answered; ack = answered; skip = λ i. answered }

module _ {S A : Type 0} ⦃r : Redis S A⦄ where
  -- A turn went from message `c` to message `c'` and stored the frames between.
  record Passed (c c' : ℕ) (w w' : System S A) : Type 0 where
    moved : (c < c') ⊎ (length (r.stream w.server) ≤ c)
    at_cursor : r.cursor w'.server ≡ some c'
    same_stream : r.stream w'.server ≡ r.stream w.server
    none_pending :
        (i : ℕ)
        → is_frame i (r.stream w.server) ≡ true
        → (leb c i && ltb i c') ≡ true
        → r.is_pending i w'.server ≡ false
    ready : IsReady w'.buffer

module _ {S A : Type 0} ⦃r : Redis S A⦄ (d : Documented S A) where
  open r use {stream, cursor, is_pending, xack}
  open d use {stream-xack, cursor-xack, is_pending-xack, xreadgroup-IsRead}

  collect-finished :
      (c : ℕ) (es : List (Message A)) (ms : List (ℕ × Message A)) (s : S)
      → IsDelivery c es ms
      → ((i : ℕ) → c ≤ i → entry i es ≢ some bad_utf8)
      → (collect (λ i. answered) ms s).finished ≡ true
  unfolding collect
  collect-finished c es [] s h t = refl
  collect-finished c es ((j, frame a) ∷ ms) s (e, h, hs) t =
      collect-finished (suc c) es ms s hs (λ i l. t i (omega arith))
  collect-finished c es ((j, no_frame) ∷ ms) s (e, h, hs) t =
      collect-finished (suc c) es ms _ hs (λ i l. t i (omega arith))
  collect-finished c es ((j, bad_json) ∷ ms) s (e, h, hs) t =
      collect-finished (suc c) es ms _ hs (λ i l. t i (omega arith))
  collect-finished c es ((j, bad_utf8) ∷ ms) s (e, h, hs) t = absurd (t c (omega arith) h)

  flush_stores :
      (batch : List (ℕ × A)) (w : System S A)
      → IsReady w.buffer
      → let w' = flush all_answered batch w in
        (stream w'.server ≡ stream w.server)
        × (cursor w'.server ≡ cursor w.server)
        × ((i : ℕ) → member i (ids batch) ≡ true → is_pending i w'.server ≡ false)
        × IsReady w'.buffer
  unfolding flush
  flush_stores [] w h = (refl, refl, (λ i m. absurd (ground arith)), h)
  flush_stores (e ∷ es) w (go, repo, size) = rw repo (
    stream-xack (ids (e ∷ es)) w.server,
    cursor-xack (ids (e ∷ es)) w.server,
    (λ i m. ground (arith, is_pending-xack (ids (e ∷ es)) w.server i)),
    (go, refl, size),
  )

  receive-Passed :
      (c n : ℕ) (x : Option (List (ℕ × Message A)) × S) (w : System S A)
      → IsRead r n w.server x
      → x.0 ≢ none
      → 1 ≤ n
      → cursor w.server ≡ some c
      → IsText c (stream w.server)
      → IsReady w.buffer
      → (c' : ℕ) × Passed c c' w (receive all_answered x w)
  unfolding receive finish
  receive-Passed c n (none, s') w h up size at t ready = absurd (up refl)
  receive-Passed c n (some ms, s') w (c1, at1, del, more, es, cur, pen) up size at t ready =
      let same : c1 ≡ c = ground (arith, at, at1) in
      let o = collect (λ i. answered) ms s' in
      let f = collect-finished c1 (stream w.server) ms s' del (λ i l. t i (omega arith)) in
      let (fs, fc, fp, fr) = flush_stores o.batch (record w { server = o.server }) ready in
      (
        c1 + length ms,
        rw f (record {
          moved = elim (Bool-cases (length ms == 0)) [
            | inl e ↦ ground (arith, more)
            | inr e ↦ ground arith
          ];
          at_cursor = fc ∙ collect-cursor d (λ i. answered) ms s' ∙ cur;
          same_stream = fs ∙ collect-stream d (λ i. answered) ms s' ∙ es;
          none_pending = λ i g h. fp i (
              collect-IsBatch d (λ i. answered) c1 (stream w.server) ms s' i del f
              ∙ ground (arith, g, h));
          ready = fr;
        }),
      )

  run_once-Passed :
      (c : ℕ) (w : System S A)
      → IsUp S A
      → cursor w.server ≡ some c
      → IsText c (stream w.server)
      → IsReady w.buffer
      → (c' : ℕ) × Passed c c' w (run_once all_answered w)
  unfolding run_once
  run_once-Passed c w up at t (go, repo, size) =
      let n = w.buffer.batch_size in
      let turned = receive all_answered (r.xreadgroup n w.server) w in
      subst (λ b. (c' : ℕ) × Passed c c' w (if b then turned else w)) (sym go)
        (receive-Passed c n (r.xreadgroup n w.server) w (xreadgroup-IsRead n w.server)
          (up n c w.server at) size at t (go, repo, size))

  first : {w w' w'' : System S A} → Step w w' → Steps w' w'' → Steps w w''
  first s here = next here s
  first s (next hs h) = next (first s hs) h

  run-Steps : (n : ℕ) (faults : ℕ → Faults) (w : System S A) → Steps w (run n faults w)
  unfolding run
  run-Steps zero faults w = here
  run-Steps (suc n) faults w =
      first (turned (faults 0)) (run-Steps n (λ i. faults (suc i)) (run_once (faults 0) w))

  -- What some turns leave of the messages from `c` on, for a stream that was `es`.
  record Drained (c : ℕ) (es : List (Message A)) (w' : System S A) : Type 0 where
    at_end : cursor w'.server ≡ some (length es)
    same_stream : stream w'.server ≡ es
    none_pending : (i : ℕ) → is_frame i es ≡ true → leb c i ≡ true → is_pending i w'.server ≡ false

  Drained_before :
      {k c c1 : ℕ} {w w1 w' : System S A}
      → Passed c c1 w w1
      → IsTracked S A k c1 w1.server w1.database
      → Steps w1 w'
      → Drained c1 (stream w1.server) w'
      → Drained c (stream w.server) w'
  Drained_before {k} {c} {c1} {w} {w1} {w'} p t hs rest = record {
    at_end = rest.at_end ∙ ap (λ es. some (length es)) p.same_stream;
    same_stream = rest.same_stream ∙ p.same_stream;
    none_pending = λ i f l.
        let f1 = ap (is_frame i) p.same_stream ∙ f in
        elim (Bool-cases (leb c1 i)) [
          | inl h ↦ rest.none_pending i f1 h
          | inr h ↦ (Steps-IsKept d i hs t (ground arith) f1).1 ∙ p.none_pending i f (ground arith)
        ];
  }

  run-Drained :
      (n : ℕ) {k c : ℕ} (w : System S A)
      → IsUp S A
      → IsTracked S A k c w.server w.database
      → IsText c (stream w.server)
      → IsReady w.buffer
      → length (stream w.server) ≤ c + n
      → Drained c (stream w.server) (run n (λ i. all_answered) w)
  unfolding run
  run-Drained zero {k} {c} w up t text ready enough =
      let same : c ≡ length (stream w.server) = omega (arith, t.within) in
      record {
        at_end = t.at_cursor ∙ ap some same;
        same_stream = refl;
        none_pending = λ i f l. absurd (ground (arith, is_frame-lt i (stream w.server) f, l));
      }
  run-Drained (suc n) {k} {c} w up t text ready enough =
      let w1 = run_once all_answered w in
      let (c1, p) = run_once-Passed c w up t.at_cursor text ready in
      let (c2, le, t2) = Step-IsTracked d t (turned all_answered) in
      let same : c2 ≡ c1 = ground (arith, t2.at_cursor, p.at_cursor) in
      let t1 = subst (λ x. IsTracked S A k x w1.server w1.database) same t2 in
      let text1 : IsText c1 (stream w1.server) =
        subst (IsText c1) (sym p.same_stream) (λ i l. text i (omega arith)) in
      let enough1 : length (stream w1.server) ≤ c1 + n =
        rw p.same_stream (ground (arith, p.moved)) in
      Drained_before p t1 (run-Steps n (λ i. all_answered) w1)
        (run-Drained n w1 up t1 text1 p.ready enough1)

  -- While the server answers, the repository stores and every message is text, a running worker has,
  -- after as many turns as there are messages ahead of its group, stored every frame among them,
  -- and its group stands at the end of the stream.
  pub run-stores_all :
      (n : ℕ) {k c : ℕ} (w : System S A)
      → IsUp S A
      → IsTracked S A k c w.server w.database
      → IsText c (stream w.server)
      → IsReady w.buffer
      → length (stream w.server) ≤ c + n
      → let w' = run n (λ i. all_answered) w in
        (cursor w'.server ≡ some (length (stream w.server)))
        × ((i : ℕ)
            → is_frame i (stream w.server) ≡ true
            → c ≤ i
            → member i (ids w'.database) ≡ true)
  run-stores_all n {k} {c} w up t text ready enough =
      let e = run-Drained n w up t text ready enough in
      let (c', le, t') = Steps-IsTracked d t (run-Steps n (λ i. all_answered) w) in
      (
        e.at_end,
        λ i f l. ground (
          arith,
          t'.accounted i,
          ap (is_frame i) e.same_stream ∙ f,
          t'.at_cursor,
          e.at_end,
          is_frame-lt i (stream w.server) f,
          e.none_pending i f (ground arith),
          t.after_start,
        ),
      )
