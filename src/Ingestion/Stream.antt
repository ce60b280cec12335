-- ===== src/Ingestion/Stream.antt =====
-- ingestion/redis_queue.py: `RedisStreamBuffer`, with the server as a parameter. What becomes of
-- batch_store_frames and of each XACK is an argument of each turn, and the frames that are stored
-- are kept in `database`, each with the number of its message; batch_store_frames is one
-- transaction. A pipeline of `enqueue` that raises after the server has run it is `publish` alone.
pub mod Server
pub mod Ascending
pub mod Tracking
pub mod Delivery
pub mod Loss
pub mod Drain
pub mod Memory
use post_rag_drift_evaluator.Prelude.{
  ℕ, zero, suc, ◌+◌, ◌-◌, Bool, true, false, Option, none, some, List, [], ◌∷◌, ◌++◌, map, length,
  if◌then◌else◌, ◌==◌,
}
use post_rag_drift_evaluator.Ingestion.Stream.Server.{
  Message, frame, no_frame, bad_json, bad_utf8, Reply, created, busy, refused, Redis,
}

-- A call of the server or of the repository: it returns, or it raises before it is done there or
-- after that.
pub data CallResult : Type 0 where
  answered unsent unanswered : CallResult

-- What becomes of the calls of one turn: the batch's, and the XACK of each message that is no frame.
pub record Faults : Type 0 where
  pub store : CallResult
  pub ack : CallResult
  pub skip : ℕ → CallResult

pub record RedisStreamBuffer : Type 0 where
  pub batch_size : ℕ
  -- `_pending`
  pub waiting : ℕ
  pub has_repo : Bool
  -- `is_running`, and not `_stopped`
  pub running : Bool

-- The process, the server and the repository's table.
pub record System (S A : Type 0) : Type 0 where
  pub buffer : RedisStreamBuffer
  pub server : S
  pub database : List (ℕ × A)

-- What the loop over the messages of a response leaves: `frames` with their `msg_ids`, and whether
-- it went through without an exception.
pub record Collected (S A : Type 0) : Type 0 where
  pub batch : List (ℕ × A)
  pub server : S
  pub finished : Bool

unfoldable pub init : ℕ → RedisStreamBuffer
init batch_size = record {
  batch_size = if batch_size == 0 then 1 else batch_size;
  waiting = 0;
  has_repo = false;
  running = false;
}

-- A call that changes the server, whatever becomes of it.
unfoldable pub acknowledge : {S : Type 0} → (List ℕ → S → S) → CallResult → List ℕ → S → S
acknowledge xack unsent ids s = s
acknowledge xack _ ids s = xack ids s

module _ {S A : Type 0} where
  -- An XACK that raises ends the loop.
  abbrev pub resume : CallResult → S → Collected S A → Collected S A
  resume answered s rest = rest
  resume _ s rest = record { batch = []; server = s; finished = false }

module _ {S A : Type 0} ⦃r : Redis S A⦄ where
  open r use {xadd, xgroup_create, xreadgroup, xack}

  unfoldable pub publish : List (Message A) → S → S
  publish [] s = s
  publish (m ∷ ms) s = publish ms (xadd m s)

  unfoldable pub enqueue : List A → System S A → System S A
  unfolding publish
  enqueue frames w = record w {
    server = publish (map frame frames) w.server;
    buffer = record w.buffer { waiting = w.buffer.waiting + length frames };
  }

  -- `start_worker` after `_ensure_consumer_group`, which raises what is not BUSYGROUP.
  unfoldable pub start_with : Reply × S → System S A → System S A
  start_with (refused, s) w = record w { server = s; buffer = record w.buffer { has_repo = true } }
  start_with (_, s) w = record w {
    server = s;
    buffer = record w.buffer { has_repo = true; running = true };
  }

  unfoldable pub start_worker : System S A → System S A
  unfolding start_with
  start_worker w =
      let started = start_with (xgroup_create w.server) w in if w.buffer.running then w else started

  -- The loop over the messages: what is no frame is acknowledged and passed over.
  unfoldable pub collect : (ℕ → CallResult) → List (ℕ × Message A) → S → Collected S A
  unfolding acknowledge
  collect skip [] s = record { batch = []; server = s; finished = true }
  collect skip ((i, frame a) ∷ ms) s =
      let rest = collect skip ms s in record rest { batch = (i, a) ∷ rest.batch }
  collect skip ((i, no_frame) ∷ ms) s =
      let s' = acknowledge xack (skip i) (i ∷ []) s in resume (skip i) s' (collect skip ms s')
  collect skip ((i, bad_json) ∷ ms) s =
      let s' = acknowledge xack (skip i) (i ∷ []) s in resume (skip i) s' (collect skip ms s')
  collect skip ((i, bad_utf8) ∷ ms) s = record { batch = []; server = s; finished = false }

  abbrev pub end_worker : System S A → System S A
  end_worker w = record w { buffer = record w.buffer { running = false } }

  -- After the batch is stored. An XACK that raises ends the worker: no code catches it.
  abbrev pub acknowledge_batch : CallResult → List (ℕ × A) → System S A → System S A
  acknowledge_batch answered batch w = record w {
    server = xack (map (λ e. e.0) batch) w.server;
    buffer = record w.buffer { waiting = w.buffer.waiting - length batch };
  }
  acknowledge_batch unsent batch w = end_worker w
  acknowledge_batch unanswered batch w =
      end_worker (record w { server = xack (map (λ e. e.0) batch) w.server })

  -- batch_store_frames, whose exceptions are caught, and XACK.
  abbrev pub persist_batch : CallResult → CallResult → List (ℕ × A) → System S A → System S A
  persist_batch unsent ack batch w = w
  persist_batch unanswered ack batch w = record w { database = w.database ++ batch }
  persist_batch answered ack batch w =
      acknowledge_batch ack batch (record w { database = w.database ++ batch })

  -- `_flush`. It does nothing with no frames.
  unfoldable pub flush : Faults → List (ℕ × A) → System S A → System S A
  flush f [] w = w
  flush f (e ∷ es) w = if w.buffer.has_repo then persist_batch f.store f.ack (e ∷ es) w else w

  -- An exception in the loop ends the worker.
  unfoldable pub finish : Faults → Collected S A → System S A → System S A
  unfolding flush
  finish f c w =
      let kept = record w { server = c.server } in
      if c.finished then flush f c.batch kept else end_worker kept

  unfoldable pub receive : Faults → Option (List (ℕ × Message A)) × S → System S A → System S A
  unfolding collect finish
  receive f (none, s) w = record w { server = s }
  receive f (some ms, s) w = finish f (collect f.skip ms s) w

  -- One turn of the loop in `_run`.
  unfoldable pub run_once : Faults → System S A → System S A
  unfolding receive
  run_once f w =
      let turned = receive f (xreadgroup w.buffer.batch_size w.server) w in
      if w.buffer.running then turned else w

  -- `_run` for some turns, with what becomes of the calls of each.
  unfoldable pub run : ℕ → (ℕ → Faults) → System S A → System S A
  unfolding run_once
  run zero faults w = w
  run (suc fuel) faults w = run fuel (λ i. faults (suc i)) (run_once (faults 0) w)

  -- Between two turns.
  unfoldable pub stop_worker : System S A → System S A
  stop_worker w = end_worker w

  -- The process ends and a new one makes its buffer.
  unfoldable pub restart : ℕ → System S A → System S A
  unfolding init
  restart batch_size w = record w { buffer = init batch_size }
