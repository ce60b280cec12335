-- ===== src/Ingestion/Queue.antt =====
-- ingestion/queue.py: `AsyncIngestionBuffer`. One turn of the worker's loop takes a batch and hands it
-- to the repository; whether that raises is an argument. The log of the frames that were handed over,
-- each with whether it was persisted, is kept beside the fields of the source.
pub mod Order
pub mod Stop
use post_rag_drift_evaluator.Prelude.{
  ℕ, zero, suc, ◌-◌, Bool, true, false, not, ◌&&◌, List, [], ◌∷◌, ◌++◌, map, if◌then◌else◌, ◌==◌,
}

-- A frame, or the object `_STOP`.
pub data Item {ℓ} (A : Type ℓ) : Type ℓ where
  frame : A → Item A
  stop : Item A

pub record AsyncIngestionBuffer {ℓ} (A : Type ℓ) : Type ℓ where
  pub queue : List (Item A)
  pub batch_size : ℕ
  pub has_repo : Bool
  -- `is_running`: there is a worker task that is not done
  pub running : Bool
  pub written : List (A × Bool)

-- What the inner loop has taken.
pub record Drained {ℓ} (A : Type ℓ) : Type ℓ where
  pub batch : List A
  pub rest : List (Item A)
  pub saw_stop : Bool

module _ {ℓ} {A : Type ℓ} where
  unfoldable pub init : ℕ → AsyncIngestionBuffer A
  init batch_size = record {
    queue = [];
    batch_size = if batch_size == 0 then 1 else batch_size;
    has_repo = false;
    running = false;
    written = [];
  }

  unfoldable pub enqueue : List A → AsyncIngestionBuffer A → AsyncIngestionBuffer A
  enqueue frames b = record b { queue = b.queue ++ map frame frames }

  unfoldable pub start_worker : AsyncIngestionBuffer A → AsyncIngestionBuffer A
  start_worker b = if b.running then b else record b { has_repo = true; running = true }

  -- The inner loop, with room for some more frames.
  unfoldable pub drain : ℕ → List (Item A) → Drained A
  drain zero q = record { batch = []; rest = q; saw_stop = false }
  drain (suc room) [] = record { batch = []; rest = []; saw_stop = false }
  drain (suc room) (stop ∷ q) = record { batch = []; rest = q; saw_stop = true }
  drain (suc room) (frame a ∷ q) = let d = drain room q in record d { batch = a ∷ d.batch }

  -- `_flush`: without a repository, or when it raises, the frames are gone.
  unfoldable pub flush : Bool → List A → AsyncIngestionBuffer A → AsyncIngestionBuffer A
  flush persisted frames b = record b {
    written = b.written ++ map (λ a. (a, b.has_repo && persisted)) frames;
  }

  -- One turn of the worker's loop on what is in the queue; on an empty queue it times out.
  unfoldable pub turn : Bool → List (Item A) → AsyncIngestionBuffer A → AsyncIngestionBuffer A
  unfolding drain flush
  turn persisted [] b = b
  turn persisted (stop ∷ q) b = record b { queue = q; running = false }
  turn persisted (frame a ∷ q) b =
      let d = drain (b.batch_size - 1) q in
      flush persisted (a ∷ d.batch) (record b { queue = d.rest; running = not d.saw_stop })

  unfoldable pub run_once : Bool → AsyncIngestionBuffer A → AsyncIngestionBuffer A
  unfolding turn
  run_once persisted b = if b.running then turn persisted b.queue b else b

  -- What `stop_worker` does before it waits for the worker.
  unfoldable pub signal_stop : AsyncIngestionBuffer A → AsyncIngestionBuffer A
  signal_stop b = if b.running then record b { queue = b.queue ++ stop ∷ [] } else b

  -- The worker's loop, with the outcome of each batch.
  unfoldable pub run : ℕ → (ℕ → Bool) → AsyncIngestionBuffer A → AsyncIngestionBuffer A
  unfolding run_once
  run zero persisted b = b
  run (suc fuel) persisted b = run fuel (λ i. persisted (suc i)) (run_once (persisted 0) b)
