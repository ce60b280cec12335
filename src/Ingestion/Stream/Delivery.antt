-- ===== src/Ingestion/Stream/Delivery.antt =====
-- The invariant of the stream worker (ingestion/redis_queue.py) over any sequence of its calls,
-- turns, failures and restarts.
use post_rag_drift_evaluator.Prelude.{
  ℕ, ◌+◌, ◌≤◌, ◌≡◌, if_elim, ap, sym, ◌∙◌, subst, true, ◌&&◌, ◌||◌, inl, inr, Option, none, some,
  List, [], ◌∷◌, ◌++◌, map, length, ltb, leb, arith, Bool-cases, length-append,
}
use post_rag_drift_evaluator.Ingestion.Stream.Server.{
  Message, frame, Reply, created, busy, refused, Redis, Documented, member, IsDelivery, IsUnchanged,
  IsCreation, IsRead,
}
use post_rag_drift_evaluator.Ingestion.Stream.{
  CallResult, answered, unsent, unanswered, Faults, acknowledge_batch, persist_batch, System,
  Collected, publish, collect, enqueue, start_with, start_worker, flush, finish, receive, run_once,
  stop_worker, restart,
}
use post_rag_drift_evaluator.Ingestion.Stream.Ascending.{
  ids, IsAscending, IsAscending-le, IsAscending-append,
}
use post_rag_drift_evaluator.Ingestion.Stream.Tracking.{
  is_frame, member-append, is_frame-append, delivered-le, publish-stream, publish-cursor,
  publish-is_pending, collect-stream, collect-cursor, collect-is_pending, collect-pending_before,
  collect-IsBatch, collect-IsAscending,
}

-- The group began at message `k` and stands at `c`: a frame of the messages between is stored or
-- pending, and only such a frame is stored.
pub record IsTracked (S A : Type 0) ⦃r : Redis S A⦄ (k c : ℕ) (s : S) (db : List (ℕ × A))
    : Type 0 where
  pub at_cursor : r.cursor s ≡ some c
  pub after_start : k ≤ c
  pub within : c ≤ length (r.stream s)
  pub stored_range :
      (i : ℕ) → member i (ids db) ≡ true → (is_frame i (r.stream s) && (leb k i && ltb i c)) ≡ true
  pub accounted :
      (i : ℕ)
      → (is_frame i (r.stream s) && (leb k i && ltb i c)) ≡ true
      → (member i (ids db) || r.is_pending i s) ≡ true
  -- each at most once, in the order of the stream
  pub in_order : IsAscending k c (ids db)
  pub pending_range : (i : ℕ) → r.is_pending i s ≡ true → (leb k i && ltb i c) ≡ true

module _ {S A : Type 0} ⦃r : Redis S A⦄ where
  -- A later state in which the group has not moved back.
  abbrev pub Onward : ℕ → ℕ → System S A → Type 0
  Onward k c w = (c' : ℕ) × (c ≤ c') × IsTracked S A k c' w.server w.database

module _ {S A : Type 0} ⦃r : Redis S A⦄ (d : Documented S A) where
  open r use {stream, cursor, is_pending, xack}
  open d use {
    stream-xack, cursor-xack, is_pending-xack, xgroup_create-IsCreation, xreadgroup-IsRead,
  }

  -- Which messages below the cursor are frames does not change with what is added behind.
  range_published :
      (k c i : ℕ) (ms : List (Message A)) (s : S)
      → c ≤ length (stream s)
      → (is_frame i (stream (publish ms s)) && (leb k i && ltb i c))
        ≡ (is_frame i (stream s) && (leb k i && ltb i c))
  range_published k c i ms s l = rw (publish-stream d ms s) (elim (Bool-cases (ltb i c)) [
    | inl below ↦
        let same : is_frame i (stream s ++ ms) ≡ is_frame i (stream s) =
          is_frame-append i (stream s) ms (ground arith) in
        ground (arith, same)
    | inr above ↦ ground arith
  ])

  IsTracked-publish :
      {k c : ℕ} {s : S} {db : List (ℕ × A)} (ms : List (Message A))
      → IsTracked S A k c s db
      → IsTracked S A k c (publish ms s) db
  IsTracked-publish {k} {c} {s} {db} ms t = record {
    at_cursor = publish-cursor d ms s ∙ t.at_cursor;
    after_start = t.after_start;
    within = rw (publish-stream d ms s) (omega (arith, length-append (stream s) ms, t.within));
    stored_range = λ i h. range_published k c i ms s t.within ∙ t.stored_range i h;
    accounted = λ i h.
        ap (λ b. member i (ids db) || b) (publish-is_pending d ms s i)
        ∙ t.accounted i (sym (range_published k c i ms s t.within) ∙ h);
    in_order = t.in_order;
    pending_range = λ i h. t.pending_range i (sym (publish-is_pending d ms s i) ∙ h);
  }

  IsTracked-unchanged :
      {k c : ℕ} {s s' : S} {db : List (ℕ × A)}
      → IsUnchanged r s s'
      → IsTracked S A k c s db
      → IsTracked S A k c s' db
  IsTracked-unchanged {k} {c} {s} {s'} {db} (es, cur, pen) t = record {
    at_cursor = cur ∙ t.at_cursor;
    after_start = t.after_start;
    within = rw es t.within;
    stored_range = λ i. rw es (t.stored_range i);
    accounted = λ i. rw (es, pen i) (t.accounted i);
    in_order = t.in_order;
    pending_range = λ i h. t.pending_range i (sym (pen i) ∙ h);
  }

  -- What a read and the loop over its messages make of the group, while nothing is stored.
  IsTracked-collect :
      {k c : ℕ} {s s' : S} {db : List (ℕ × A)} (skip : ℕ → CallResult) (ms : List (ℕ × Message A))
      → IsTracked S A k c s db
      → IsDelivery c (stream s) ms
      → stream s' ≡ stream s
      → cursor s' ≡ some (c + length ms)
      → ((i : ℕ) → is_pending i s' ≡ (is_pending i s || (leb c i && ltb i (c + length ms))))
      → IsTracked S A k (c + length ms) (collect skip ms s').server db
  IsTracked-collect {k} {c} {s} {s'} {db} skip ms t del es cur pen =
      let same = collect-stream d skip ms s' ∙ es in
      record {
        at_cursor = collect-cursor d skip ms s' ∙ cur;
        after_start = omega (arith, t.after_start);
        within = rw same (delivered-le c (stream s) ms del t.within);
        stored_range = λ i h. rw same (ground (arith, t.stored_range i h));
        accounted = λ i. rw same (λ h. ground (
          arith,
          h,
          t.accounted i,
          pen i,
          collect-is_pending d skip c (stream s) ms s' i del (ground (arith, h)),
        ));
        in_order =
            IsAscending-le k k c (c + length ms) (ids db) (omega arith) (omega arith) t.in_order;
        pending_range = λ i h. ground (
          arith,
          collect-pending_before d skip ms s' i h,
          pen i,
          t.pending_range i,
          t.after_start,
        );
      }

  -- A batch of numbers from `c` on, behind a database of numbers below `c`.
  abbrev IsNextBatch : ℕ → ℕ → ℕ → List (ℕ × A) → List (ℕ × A) → Type 0
  IsNextBatch k c n db batch =
      (k ≤ c) × IsAscending k c (ids db) × IsAscending c (c + n) (ids batch)

  -- The same, with the batch stored.
  IsTracked-store :
      {k c : ℕ} (n : ℕ) {s : S} {db : List (ℕ × A)} (batch : List (ℕ × A))
      → IsNextBatch k c n db batch
      → IsTracked S A k (c + n) s db
      → ((i : ℕ) → member i (ids batch) ≡ (is_frame i (stream s) && (leb c i && ltb i (c + n))))
      → IsTracked S A k (c + n) s (db ++ batch)
  IsTracked-store {k} {c} n {s} {db} batch (start, low, high) t mem = record {
    at_cursor = t.at_cursor;
    after_start = t.after_start;
    within = t.within;
    stored_range =
        λ i h. ground (arith, h, member-append i db batch, t.stored_range i, mem i, start);
    accounted = λ i h. ground (arith, t.accounted i h, member-append i db batch);
    in_order = IsAscending-append k c (c + n) db batch low high;
    pending_range = t.pending_range;
  }

  -- An acknowledgement of what is stored.
  IsTracked-xack :
      {k c : ℕ} {s : S} {db : List (ℕ × A)} (js : List ℕ)
      → ((i : ℕ) → member i js ≡ true → member i (ids db) ≡ true)
      → IsTracked S A k c s db
      → IsTracked S A k c (xack js s) db
  IsTracked-xack {k} {c} {s} {db} js sub t = record {
    at_cursor = cursor-xack js s ∙ t.at_cursor;
    after_start = t.after_start;
    within = rw (stream-xack js s) t.within;
    stored_range = λ i h. rw (stream-xack js s) (t.stored_range i h);
    accounted = λ i.
        rw (stream-xack js s) (λ h. ground (arith, t.accounted i h, is_pending-xack js s i, sub i));
    in_order = t.in_order;
    pending_range = λ i h. t.pending_range i (ground (arith, h, is_pending-xack js s i));
  }

  abbrev StateIsTracked : ℕ → ℕ → System S A → Type 0
  StateIsTracked k c w = IsTracked S A k c w.server w.database

  acknowledge_batch-IsTracked :
      {k c : ℕ} (o : CallResult) (batch : List (ℕ × A)) (w : System S A)
      → ((i : ℕ) → member i (ids batch) ≡ true → member i (ids w.database) ≡ true)
      → StateIsTracked k c w
      → StateIsTracked k c (acknowledge_batch o batch w)
  acknowledge_batch-IsTracked answered batch w sub t = IsTracked-xack (ids batch) sub t
  acknowledge_batch-IsTracked unsent batch w sub t = t
  acknowledge_batch-IsTracked unanswered batch w sub t = IsTracked-xack (ids batch) sub t

  persist_batch-IsTracked :
      {k c : ℕ} (n : ℕ) (store ack : CallResult) (batch : List (ℕ × A)) (w : System S A)
      → IsNextBatch k c n w.database batch
      → StateIsTracked k (c + n) w
      → ((i : ℕ)
          → member i (ids batch) ≡ (is_frame i (stream w.server) && (leb c i && ltb i (c + n))))
      → StateIsTracked k (c + n) (persist_batch store ack batch w)
  persist_batch-IsTracked n unsent ack batch w start t mem = t
  persist_batch-IsTracked n unanswered ack batch w start t mem = IsTracked-store n batch start t mem
  persist_batch-IsTracked n answered ack batch w start t mem =
      acknowledge_batch-IsTracked ack batch (record w { database = w.database ++ batch })
        (λ i h. ground (arith, h, member-append i w.database batch))
        (IsTracked-store n batch start t mem)

  flush-IsTracked :
      {k c : ℕ} (n : ℕ) (f : Faults) (batch : List (ℕ × A)) (w : System S A)
      → IsNextBatch k c n w.database batch
      → StateIsTracked k (c + n) w
      → ((i : ℕ)
          → member i (ids batch) ≡ (is_frame i (stream w.server) && (leb c i && ltb i (c + n))))
      → StateIsTracked k (c + n) (flush f batch w)
  unfolding flush
  flush-IsTracked n f [] w start t mem = t
  flush-IsTracked {k} {c} n f (e ∷ es) w start t mem =
      if_elim (StateIsTracked k (c + n)) w.buffer.has_repo _ w
        (persist_batch-IsTracked n f.store f.ack (e ∷ es) w start t mem) t

  finish-IsTracked :
      {k c : ℕ} (n : ℕ) (f : Faults) (o : Collected S A) (w : System S A)
      → IsNextBatch k c n w.database o.batch
      → IsTracked S A k (c + n) o.server w.database
      → (o.finished ≡ true
          → (i : ℕ)
          → member i (ids o.batch) ≡ (is_frame i (stream o.server) && (leb c i && ltb i (c + n))))
      → StateIsTracked k (c + n) (finish f o w)
  unfolding finish
  finish-IsTracked n f o w start t mem = elim (Bool-cases o.finished) [
    | inl h ↦ rw h (flush-IsTracked n f o.batch (record w { server = o.server }) start t (mem h))
    | inr h ↦ rw h t
  ]

  receive-IsTracked :
      {k c : ℕ} (f : Faults) (n : ℕ) (x : Option (List (ℕ × Message A)) × S) (w : System S A)
      → IsRead r n w.server x
      → IsTracked S A k c w.server w.database
      → Onward k c (receive f x w)
  unfolding receive
  receive-IsTracked {k} {c} f n (none, s') w h t = (c, omega arith, IsTracked-unchanged h t)
  receive-IsTracked {k} {c} f n (some ms, s') w (c1, at, del, more, es, cur, pen) t =
      let same : c ≡ c1 = ground (arith, t.at_cursor) in
      let t' = subst (λ x. IsTracked S A k x w.server w.database) same t in
      (
        c1 + length ms,
        omega arith,
        finish-IsTracked (length ms) f (collect f.skip ms s') w
            (
              t'.after_start,
              t'.in_order,
              collect-IsAscending d f.skip c1 (stream w.server) ms s' del,
            )
            (IsTracked-collect f.skip ms t' del es cur pen)
            (λ h i.
              rw (collect-stream d f.skip ms s', es)
                (collect-IsBatch d f.skip c1 (stream w.server) ms s' i del h)),
      )

  start-IsTracked :
      {k c : ℕ} (x : Reply × S) (w : System S A)
      → IsCreation r w.server x
      → IsTracked S A k c w.server w.database
      → IsTracked S A k c (start_with x w).server (start_with x w).database
  unfolding start_with
  start-IsTracked (created, s') w (es, absent, cur, pen) t = absurd (ground (arith, t.at_cursor))
  start-IsTracked (busy, s') w (h, _) t = IsTracked-unchanged h t
  start-IsTracked (refused, s') w h t = IsTracked-unchanged h t

module _ {S A : Type 0} ⦃r : Redis S A⦄ where
  -- One call, one turn of the worker, a message of another producer, or a restart.
  pub data Step : System S A → System S A → Type 0 where
    enqueued : (frames : List A) {w : System S A} → Step w (enqueue frames w)
    published :
        (m : Message A) {w : System S A} → Step w (record w { server = publish (m ∷ []) w.server })
    started : {w : System S A} → Step w (start_worker w)
    turned : (f : Faults) {w : System S A} → Step w (run_once f w)
    stopped : {w : System S A} → Step w (stop_worker w)
    restarted : (batch_size : ℕ) {w : System S A} → Step w (restart batch_size w)

  pub data Steps (w : System S A) : System S A → Type 0 where
    here : Steps w w
    next : {w' w'' : System S A} → Steps w w' → Step w' w'' → Steps w w''

module _ {S A : Type 0} ⦃r : Redis S A⦄ (d : Documented S A) where
  open d use {xgroup_create-IsCreation, xreadgroup-IsRead}

  pub Step-IsTracked :
      {k c : ℕ} {w w' : System S A}
      → IsTracked S A k c w.server w.database
      → Step w w'
      → Onward k c w'
  unfolding enqueue start_worker run_once stop_worker restart
  Step-IsTracked {k} {c} t (enqueued frames) =
      (c, omega arith, IsTracked-publish d (map frame frames) t)
  Step-IsTracked {k} {c} t (published m) = (c, omega arith, IsTracked-publish d (m ∷ []) t)
  Step-IsTracked {k} {c} t (started {w}) =
      if_elim (Onward k c) w.buffer.running w _ (c, omega arith, t)
        (c, omega arith, start-IsTracked d _ w (xgroup_create-IsCreation w.server) t)
  Step-IsTracked {k} {c} t (turned f {w}) =
      if_elim (Onward k c) w.buffer.running _ w
        (receive-IsTracked d f w.buffer.batch_size _ w
          (xreadgroup-IsRead w.buffer.batch_size w.server) t)
        (c, omega arith, t)
  Step-IsTracked {k} {c} t stopped = (c, omega arith, t)
  Step-IsTracked {k} {c} t (restarted n) = (c, omega arith, t)

  -- In every later state each frame that the group was given is stored or pending, whatever calls
  -- raised, before or after they were done, and wherever the process ended; nothing else is stored,
  -- and nothing twice or out of the order of the stream; and the group never moves back.
  pub Steps-IsTracked :
      {k c : ℕ} {w w' : System S A}
      → IsTracked S A k c w.server w.database
      → Steps w w'
      → Onward k c w'
  Steps-IsTracked {k} {c} t here = (c, omega arith, t)
  Steps-IsTracked {k} {c} t (next hs h) =
      let (c', le, t') = Steps-IsTracked t hs in
      let (c'', le', t'') = Step-IsTracked t' h in (c'', omega arith, t'')
