-- ===== src/Ingestion/Stream/Loss.antt =====
-- The frames that the worker of ingestion/redis_queue.py never stores.
use post_rag_drift_evaluator.Prelude.{
  ℕ, ◌+◌, ◌<◌, ◌≡◌, ◌++◌, if_elim, refl, sym, ◌∙◌, ap, subst, true, false, Option, none, some, List,
  [], ◌∷◌, map, length, arith, if◌then◌else◌,
}
use post_rag_drift_evaluator.Ingestion.Stream.Server.{
  Message, frame, Reply, created, busy, refused, Redis, Documented, member, IsCreation, IsRead,
}
use post_rag_drift_evaluator.Ingestion.Stream.{
  CallResult, answered, unsent, unanswered, Faults, acknowledge_batch, persist_batch, System,
  Collected, publish, collect, enqueue, start_with, start_worker, flush, finish, receive, run_once,
  stop_worker, restart,
}
use post_rag_drift_evaluator.Ingestion.Stream.Ascending.{ids, IsAscending, member-below}
use post_rag_drift_evaluator.Ingestion.Stream.Tracking.{
  is_frame, member-append, is_frame-append, publish-stream, publish-is_pending, collect-stream,
  collect-is_pending, collect-IsAscending,
}
use post_rag_drift_evaluator.Ingestion.Stream.Delivery.{
  IsTracked, Onward, Step, enqueued, published, started, turned, stopped, restarted, Steps, here,
  next, Steps-IsTracked,
}

module _ {S A : Type 0} ⦃r : Redis S A⦄ (d : Documented S A) where
  open r use {stream, cursor, is_pending, xack}
  open d use {stream-xack, is_pending-xack, xgroup_create-IsCreation, xreadgroup-IsRead}

  -- One message stays what it is, pending or not, stored or not.
  abbrev pub IsKept : ℕ → System S A → System S A → Type 0
  IsKept i w w' =
      (is_frame i (stream w'.server) ≡ is_frame i (stream w.server))
      × (is_pending i w'.server ≡ is_pending i w.server)
      × (member i (ids w'.database) ≡ member i (ids w.database))

  IsKept-trans : (i : ℕ) (w w' w'' : System S A) → IsKept i w w' → IsKept i w' w'' → IsKept i w w''
  IsKept-trans i w w' w'' (e, p, m) (e', p', m') = (e' ∙ e, p' ∙ p, m' ∙ m)

  publish-IsKept :
      (i : ℕ) (ms : List (Message A)) (s : S)
      → i < length (stream s)
      → (is_frame i (stream (publish ms s)) ≡ is_frame i (stream s))
        × (is_pending i (publish ms s) ≡ is_pending i s)
  publish-IsKept i ms s l = (
    ap (is_frame i) (publish-stream d ms s) ∙ is_frame-append i (stream s) ms l,
    publish-is_pending d ms s i,
  )

  -- A batch behind the message neither stores nor acknowledges it.
  store-IsKept :
      (i lo hi : ℕ) (batch : List (ℕ × A)) (w : System S A)
      → i < lo
      → IsAscending lo hi (ids batch)
      → IsKept i w (record w { database = w.database ++ batch })
  store-IsKept i lo hi batch w l h = (
    refl,
    refl,
    ground (arith, member-append i w.database batch, member-below i lo hi (ids batch) l h),
  )

  xack-IsKept :
      (i lo hi : ℕ) (js : List ℕ) (s : S)
      → i < lo
      → IsAscending lo hi js
      → (is_frame i (stream (xack js s)) ≡ is_frame i (stream s))
        × (is_pending i (xack js s) ≡ is_pending i s)
  xack-IsKept i lo hi js s l h = (
    ap (is_frame i) (stream-xack js s),
    ground (arith, is_pending-xack js s i, member-below i lo hi js l h),
  )

  acknowledge_batch-IsKept :
      (i lo hi : ℕ) (o : CallResult) (batch : List (ℕ × A)) (w : System S A)
      → i < lo
      → IsAscending lo hi (ids batch)
      → IsKept i w (acknowledge_batch o batch w)
  acknowledge_batch-IsKept i lo hi answered batch w l h =
      let (e, p) = xack-IsKept i lo hi (ids batch) w.server l h in (e, p, refl)
  acknowledge_batch-IsKept i lo hi unsent batch w l h = (refl, refl, refl)
  acknowledge_batch-IsKept i lo hi unanswered batch w l h =
      let (e, p) = xack-IsKept i lo hi (ids batch) w.server l h in (e, p, refl)

  persist_batch-IsKept :
      (i lo hi : ℕ) (store ack : CallResult) (batch : List (ℕ × A)) (w : System S A)
      → i < lo
      → IsAscending lo hi (ids batch)
      → IsKept i w (persist_batch store ack batch w)
  persist_batch-IsKept i lo hi unsent ack batch w l h = (refl, refl, refl)
  persist_batch-IsKept i lo hi unanswered ack batch w l h = store-IsKept i lo hi batch w l h
  persist_batch-IsKept i lo hi answered ack batch w l h =
      let stored = record w { database = w.database ++ batch } in
      IsKept-trans i w stored (acknowledge_batch ack batch stored)
        (store-IsKept i lo hi batch w l h) (acknowledge_batch-IsKept i lo hi ack batch stored l h)

  flush-IsKept :
      (i lo hi : ℕ) (f : Faults) (batch : List (ℕ × A)) (w : System S A)
      → i < lo
      → IsAscending lo hi (ids batch)
      → IsKept i w (flush f batch w)
  unfolding flush
  flush-IsKept i lo hi f [] w l h = (refl, refl, refl)
  flush-IsKept i lo hi f (e ∷ es) w l h =
      if_elim (IsKept i w) w.buffer.has_repo _ w
        (persist_batch-IsKept i lo hi f.store f.ack (e ∷ es) w l h) (refl, refl, refl)

  finish-IsKept :
      (i lo hi : ℕ) (f : Faults) (o : Collected S A) (w : System S A)
      → i < lo
      → IsAscending lo hi (ids o.batch)
      → IsKept i (record w { server = o.server }) (finish f o w)
  unfolding finish
  finish-IsKept i lo hi f o w l h =
      let kept = record w { server = o.server } in
      if_elim (IsKept i kept) o.finished _ _ (flush-IsKept i lo hi f o.batch kept l h)
        (refl, refl, refl)

  receive-IsKept :
      (i c : ℕ) (f : Faults) (n : ℕ) (x : Option (List (ℕ × Message A)) × S) (w : System S A)
      → IsRead r n w.server x
      → cursor w.server ≡ some c
      → i < c
      → is_frame i (stream w.server) ≡ true
      → IsKept i w (receive f x w)
  unfolding receive
  receive-IsKept i c f n (none, s') w (es, cur, pen) at l g = (ap (is_frame i) es, pen i, refl)
  receive-IsKept i c f n (some ms, s') w (c1, at1, del, more, es, cur, pen) at l g =
      let same : c ≡ c1 = ground (arith, at, at1) in
      let below : i < c1 = omega arith in
      let o = collect f.skip ms s' in
      let kept = record w { server = o.server } in
      IsKept-trans i w kept (finish f o w)
        (
          ap (is_frame i) (collect-stream d f.skip ms s' ∙ es),
          collect-is_pending d f.skip c1 (stream w.server) ms s' i del g ∙ ground (arith, pen i),
          refl,
        )
        (finish-IsKept i c1 (c1 + length ms) f o w below
          (collect-IsAscending d f.skip c1 (stream w.server) ms s' del))

  start-IsKept :
      (i c : ℕ) (x : Reply × S) (w : System S A)
      → IsCreation r w.server x
      → cursor w.server ≡ some c
      → IsKept i w (start_with x w)
  unfolding start_with
  start-IsKept i c (created, s') w (es, absent, cur, pen) at = absurd (ground (arith, at))
  start-IsKept i c (busy, s') w ((es, cur, pen), _) at = (ap (is_frame i) es, pen i, refl)
  start-IsKept i c (refused, s') w (es, cur, pen) at = (ap (is_frame i) es, pen i, refl)

  -- A step neither acknowledges nor stores a frame that was delivered before it.
  Step-IsKept :
      (i c : ℕ) {w w' : System S A}
      → Step w w'
      → cursor w.server ≡ some c
      → i < c
      → i < length (stream w.server)
      → is_frame i (stream w.server) ≡ true
      → IsKept i w w'
  unfolding enqueue start_worker run_once stop_worker restart
  Step-IsKept i c (enqueued frames {w}) at l m g =
      let (e, p) = publish-IsKept i (map frame frames) w.server m in (e, p, refl)
  Step-IsKept i c (published message {w}) at l m g =
      let (e, p) = publish-IsKept i (message ∷ []) w.server m in (e, p, refl)
  Step-IsKept i c (started {w}) at l m g =
      if_elim (IsKept i w) w.buffer.running w _ (refl, refl, refl)
        (start-IsKept i c _ w (xgroup_create-IsCreation w.server) at)
  Step-IsKept i c (turned f {w}) at l m g =
      if_elim (IsKept i w) w.buffer.running _ w
        (receive-IsKept i c f w.buffer.batch_size _ w
          (xreadgroup-IsRead w.buffer.batch_size w.server) at l g)
        (refl, refl, refl)
  Step-IsKept i c stopped at l m g = (refl, refl, refl)
  Step-IsKept i c (restarted n) at l m g = (refl, refl, refl)

  pub Steps-IsKept :
      (i : ℕ) {k c : ℕ} {w w' : System S A}
      → Steps w w'
      → IsTracked S A k c w.server w.database
      → i < c
      → is_frame i (stream w.server) ≡ true
      → IsKept i w w'
  Steps-IsKept i here t l g = (refl, refl, refl)
  Steps-IsKept i {k} {c} {w} (next {w'} {w''} hs h) t l g =
      let kept = Steps-IsKept i hs t l g in
      let (c', le, t') = Steps-IsTracked d t hs in
      let l' : i < c' = omega arith in
      IsKept-trans i w w' w'' kept
        (Step-IsKept i c' h t'.at_cursor l' (omega (arith, t'.within)) (kept.0 ∙ g))

  -- A frame that was delivered and is pending, because batch_store_frames or XACK raised or the
  -- worker or the process ended, stays pending in every later state, and whatever restarts and turns
  -- follow it is not stored any more: one that is not in the database never gets there.
  pub pending-never_stored :
      {k c : ℕ} {w w' : System S A} (i : ℕ)
      → IsTracked S A k c w.server w.database
      → is_frame i (stream w.server) ≡ true
      → is_pending i w.server ≡ true
      → Steps w w'
      → (is_pending i w'.server ≡ true) × (member i (ids w'.database) ≡ member i (ids w.database))
  pending-never_stored {k} {c} {w} {w'} i t g p hs =
      let l : i < c = ground (arith, t.pending_range i p) in
      let (e, p', m) = Steps-IsKept i hs t l g in (p' ∙ p, m)

  start_fresh :
      (x : Reply × S) (w : System S A)
      → IsCreation r w.server x
      → x.0 ≡ created
      → w.database ≡ []
      → let k = length (stream w.server) in
        IsTracked S A k k (start_with x w).server (start_with x w).database
  unfolding start_with
  start_fresh (created, s') w (es, absent, cur, pen) e n = record {
    at_cursor = cur;
    after_start = omega arith;
    within = rw es (omega arith);
    stored_range = λ i. rw n (λ h. ground (arith, h));
    accounted = λ i h. ground (arith, h);
    in_order = rw n (omega arith);
    pending_range = λ i h. ground (arith, pen i);
  }
  start_fresh (busy, s') w h e n = absurd (ground arith)
  start_fresh (refused, s') w h e n = absurd (ground arith)

  -- When the worker is first started, on a stream without its group and an empty database, a
  -- message that stands in the stream already is in the database in no later state; of the
  -- messages after it, the invariant of the worker holds.
  pub start_worker-skips_backlog :
      (w : System S A) {w' : System S A}
      → w.buffer.running ≡ false
      → w.database ≡ []
      → (r.xgroup_create w.server).0 ≡ created
      → Steps (start_worker w) w'
      → let k = length (stream w.server) in
        ((i : ℕ) → i < k → member i (ids w'.database) ≡ false) × Onward k k w'
  unfolding start_worker
  start_worker-skips_backlog w {w'} idle n e hs =
      let k = length (stream w.server) in
      let fresh = start_with (r.xgroup_create w.server) w in
      let t =
        subst (λ b. let v = if b then w else fresh in IsTracked S A k k v.server v.database)
          (sym idle) (start_fresh _ w (xgroup_create-IsCreation w.server) e n) in
      let (c, le, t') = Steps-IsTracked d t hs in
      ((λ i l. ground (arith, t'.stored_range i)), (c, le, t'))
