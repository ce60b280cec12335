-- ===== src/Tests/Stream.antt =====
-- The stream worker on a stream in memory.
use post_rag_drift_evaluator.Prelude.{
  ℕ, zero, suc, String, ◌≡◌, ◌≢◌, ◌≤◌, ◌<◌, ◌+◌, refl, true, false, none, some, [], ◌∷◌, length,
  arith,
}
use post_rag_drift_evaluator.Ingestion.Stream.Server.{frame, bad_utf8, member, entry}
use post_rag_drift_evaluator.Ingestion.Stream.Memory.{Log, memory, memory-Documented, memory-IsUp}
use post_rag_drift_evaluator.Ingestion.Stream.{
  Faults, answered, unsent, System, init, enqueue, start_worker, run_once, run, restart,
}
use post_rag_drift_evaluator.Ingestion.Stream.Ascending.{ids}
use post_rag_drift_evaluator.Ingestion.Stream.Tracking.{is_frame}
use post_rag_drift_evaluator.Ingestion.Stream.Delivery.{
  IsTracked, Onward, Steps, here, next, enqueued, turned, restarted, started, Steps-IsTracked,
}
use post_rag_drift_evaluator.Ingestion.Stream.Loss.{
  pending-never_stored, start_worker-skips_backlog,
}
use post_rag_drift_evaluator.Ingestion.Stream.Drain.{all_answered, IsText, IsReady, run-stores_all}

abbrev Server : Type 0
Server = System (Log String) String

-- One frame is in the stream before the group is made.
abbrev backlog : Server
backlog = record {
  buffer = init 1;
  server = record { entries = frame "old" ∷ []; group = none; pending = λ i. false };
  database = [];
}

-- The batch of the frame "a" fails, and that of "b" is left.
abbrev filled : Server
filled = enqueue ("a" ∷ "b" ∷ []) (start_worker backlog)

abbrev store_fails : Faults
store_fails = record { store = unsent; ack = answered; skip = λ i. answered }

abbrev failed : Server
failed = run_once store_fails filled

-- A new process goes on from there.
abbrev resumed : Server
resumed = start_worker (restart 1 failed)

abbrev finished : Server
finished = run_once all_answered resumed

filled-Steps : Steps (start_worker backlog) filled
filled-Steps = next here (enqueued ("a" ∷ "b" ∷ []))

failed-Steps : Steps (start_worker backlog) failed
failed-Steps = next filled-Steps (turned store_fails)

finished-Steps : Steps failed finished
finished-Steps = next (next (next here (restarted 1)) started) (turned all_answered)

backlog-idle : backlog.buffer.running ≡ false
unfolding init
backlog-idle = refl

start_worker-skips_backlog_example :
    ((i : ℕ) → i < 1 → member i (ids failed.database) ≡ false) × Onward 1 1 failed
start_worker-skips_backlog_example =
    start_worker-skips_backlog memory-Documented backlog backlog-idle refl refl failed-Steps

-- The invariant after the failed batch.
tracked : (c : ℕ) × IsTracked (Log String) String 1 c failed.server failed.database
tracked =
    let (c, le, t) =
      (start_worker-skips_backlog memory-Documented backlog backlog-idle refl refl
        failed-Steps).1 in
    (c, t)

failed-is_frame : is_frame 1 failed.server.entries ≡ true
unfolding run_once enqueue start_worker init
failed-is_frame = refl

failed-pending : failed.server.pending 1 ≡ true
unfolding run_once enqueue start_worker init
failed-pending = refl

pending-never_stored_example :
    (finished.server.pending 1 ≡ true)
    × (member 1 (ids finished.database) ≡ member 1 (ids failed.database))
pending-never_stored_example =
    pending-never_stored memory-Documented 1 tracked.1 failed-is_frame failed-pending finished-Steps

-- The frame behind it is stored.
finished-database : finished.database ≡ (2, "b") ∷ []
unfolding run_once enqueue start_worker restart init
finished-database = refl

-- An XACK that raises leaves the frame stored and pending, and the worker ended.
abbrev unacknowledged : Server
unacknowledged = run_once (record all_answered { ack = unsent }) filled

stored_and_pending :
    (unacknowledged.database ≡ (1, "a") ∷ [])
    × (unacknowledged.server.pending 1 ≡ true)
    × (unacknowledged.buffer.running ≡ false)
unfolding run_once enqueue start_worker init
stored_and_pending = (refl, refl, refl)

Steps-IsTracked_example : Onward 1 tracked.0 finished
Steps-IsTracked_example = Steps-IsTracked memory-Documented tracked.1 finished-Steps

-- Both frames are ahead of the group.
ahead : (c : ℕ) × (1 ≤ c) × IsTracked (Log String) String 1 c filled.server filled.database
ahead = (start_worker-skips_backlog memory-Documented backlog backlog-idle refl refl filled-Steps).1

frames_only :
    (i : ℕ) → entry {A = String} i (frame "old" ∷ frame "a" ∷ frame "b" ∷ []) ≢ some bad_utf8
frames_only zero h = ground (arith, h)
frames_only (suc zero) h = ground (arith, h)
frames_only (suc (suc zero)) h = ground (arith, h)
frames_only (suc (suc (suc i))) h = ground (arith, h)

filled-IsText : IsText ahead.0 filled.server.entries
unfolding enqueue start_worker init
filled-IsText i l = frames_only i

enough : length filled.server.entries ≤ ahead.0 + 3
unfolding enqueue start_worker init
enough = omega arith

filled-IsReady : IsReady filled.buffer
unfolding enqueue start_worker init
filled-IsReady = (refl, refl, omega arith)

run-stores_all_example :
    let w' = run 3 (λ i. all_answered) filled in
    (w'.server.group ≡ some (length filled.server.entries))
    × ((i : ℕ)
        → is_frame i filled.server.entries ≡ true
        → ahead.0 ≤ i
        → member i (ids w'.database) ≡ true)
run-stores_all_example =
    run-stores_all memory-Documented 3 filled memory-IsUp ahead.2 filled-IsText filled-IsReady
      enough
