-- ===== src/Latent/Streaming.antt =====
-- evaluator/latent_drift/streaming.py: `StreamingDriftBuffer`. A method that writes returns the new
-- buffer, with the exception that it raised, if any. Vectors are of any type; the numbers that the
-- buffer's `RandomState` draws and `np.vstack` are arguments.
pub mod Bounds
pub mod Window
use post_rag_drift_evaluator.Prelude.{
  ℕ, zero, ◌+◌, ◌/◌, String, Bool, Option, none, some, List, [], ◌∷◌, ◌++◌, map, str_eq, ltb, leb,
  ◌==◌, if◌then◌else◌, length, drop, set,
}
use post_rag_drift_evaluator.Result.{Error, Result, ok, err, value_error, index_error}
use post_rag_drift_evaluator.Dict.{Dict, get, get_or, put, values}

pub data Strategy : Type 0 where
  reservoir fifo : Strategy

strategy_of : String → Option Strategy
strategy_of s =
    if str_eq s "reservoir" then some reservoir else if str_eq s "fifo" then some fifo else none

pub record StreamingDriftBuffer {ℓ} (V : Type ℓ) : Type ℓ where
  pub capacity : ℕ
  pub sample_strategy : Strategy
  pub per_track_capacity : ℕ
  pub buffers : Dict (List V)

module _ {ℓ} {V : Type ℓ} where
  abbrev pub no_tracks : Dict (List V)
  no_tracks = ("retrieval", []) ∷ ("generation", []) ∷ []

  abbrev pub new : ℕ → Strategy → StreamingDriftBuffer V
  new capacity s = record {
    capacity = capacity;
    sample_strategy = s;
    per_track_capacity = capacity / 2;
    buffers = no_tracks;
  }

  unfoldable pub init : ℕ → String → Result (StreamingDriftBuffer V)
  unfolding strategy_of
  init capacity sample_strategy =
      if leb capacity 0 then err value_error else elim (strategy_of sample_strategy) [
        | none ↦ err value_error
        | some s ↦ ok (new capacity s)
      ]

  -- The vectors of a track that is there; `_buffers.get(track, [])` and `_buffers[track]`.
  abbrev pub track_of : StreamingDriftBuffer V → String → List V
  track_of b track = get_or track [] b.buffers

  abbrev pub write : StreamingDriftBuffer V → String → List V → StreamingDriftBuffer V
  write b track buf = record b { buffers = put track buf b.buffers }

  -- What a full track does with one more vector: the new list, or the exception. `randint(0, 0)`
  -- raises ValueError, and `pop(0)` on an empty list IndexError.
  unfoldable pub overflow : Strategy → ℕ → V → List V → Result (List V)
  overflow reservoir idx vec [] = err value_error
  overflow reservoir idx vec (x ∷ xs) = ok (set (x ∷ xs) idx vec)
  overflow fifo idx vec [] = err index_error
  overflow fifo idx vec (x ∷ xs) = ok (xs ++ vec ∷ [])

  -- `idx` is the number that `self._rng.randint(0, len(buf))` draws, if it is called.
  unfoldable pub ingest :
      StreamingDriftBuffer V → ℕ → V → String → StreamingDriftBuffer V × Option Error
  unfolding overflow
  ingest b idx vec track =
      let buf = track_of b track in
      if ltb (length buf) b.per_track_capacity
      then (write b track (buf ++ vec ∷ []), none)
      else elim (overflow b.sample_strategy idx vec buf) [
        | ok buf' ↦ (write b track buf', none)
        | err e ↦ (write b track buf, some e)
      ]

  -- `np.vstack` of the vectors, or the empty batch if there are none.
  unfoldable pub stack_all {κ} : {M : Type κ} → (List V → Result M) → M → List V → Result M
  stack_all vstack empty [] = ok empty
  stack_all vstack empty (x ∷ xs) = vstack (x ∷ xs)

  -- Both tracks, retrieval first.
  unfoldable pub flush_batch {κ} :
      {M : Type κ} → (List V → Result M) → M → StreamingDriftBuffer V → Result M
  unfolding stack_all
  flush_batch vstack empty b =
      stack_all vstack empty (track_of b "retrieval" ++ track_of b "generation")

  unfoldable pub flush_track {κ} :
      {M : Type κ} → (List V → Result M) → M → StreamingDriftBuffer V → String → Result M
  unfolding stack_all
  flush_track vstack empty b track = stack_all vstack empty (track_of b track)

  sum_lengths : List (List V) → ℕ
  sum_lengths [] = 0
  sum_lengths (buf ∷ bufs) = length buf + sum_lengths bufs

  unfoldable pub total_size : StreamingDriftBuffer V → ℕ
  unfolding sum_lengths values
  total_size b = sum_lengths (values b.buffers)

  unfoldable pub is_ready : StreamingDriftBuffer V → ℕ → Bool
  unfolding total_size
  is_ready b min_samples = leb min_samples (total_size b)

  unfoldable pub is_track_ready : StreamingDriftBuffer V → String → ℕ → Bool
  is_track_ready b track min_samples = leb min_samples (length (track_of b track))

  unfoldable pub sizes : StreamingDriftBuffer V → Dict ℕ
  sizes b = map (λ (t, buf). (t, length buf)) b.buffers

  unfoldable pub clear : StreamingDriftBuffer V → StreamingDriftBuffer V
  clear b = record b { buffers = map (λ (t, buf). (t, [])) b.buffers }

  unfoldable pub clear_track : StreamingDriftBuffer V → String → StreamingDriftBuffer V
  unfolding get
  clear_track b track = elim (get track b.buffers) [ none ↦ b | some buf ↦ write b track [] ]
