-- ===== src/Latent/Streaming/Bounds.antt =====
-- The sizes of the buffer's tracks and the exceptions of `ingest`.
use native.Mathlib.Decide.{ℕ_discrete as dec_eq}
use post_rag_drift_evaluator.Prelude.{
  ℕ, ◌*◌, ◌≤◌, ◌<◌, String, ◌≡◌, ◌≢◌, ◌↔◌, refl, inl, inr, none, List, [], ◌∷◌, ◌++◌, arith,
  Bool-cases, set, ltb, length, length-append, length-set, All,
}
use post_rag_drift_evaluator.Result.{Error, ok, err, value_error, index_error, Result-cases}
use post_rag_drift_evaluator.Dict.{values, All-put, All-get_or}
use post_rag_drift_evaluator.Latent.Streaming.{
  StreamingDriftBuffer, Strategy, reservoir, fifo, track_of, write, overflow, ingest, init,
  no_tracks,
}

module _ {ℓ} {V : Type ℓ} where
  -- Every track fits its share.
  pub record IsBounded (b : StreamingDriftBuffer V) : Type ℓ where
    pub tracks : All (λ buf. length buf ≤ b.per_track_capacity) (values b.buffers)

  pub track_of-le :
      (b : StreamingDriftBuffer V) (t : String)
      → IsBounded b
      → length (track_of b t) ≤ b.per_track_capacity
  track_of-le b t h =
      All-get_or (λ buf. length buf ≤ b.per_track_capacity) t [] b.buffers (omega arith) h.tracks

  write-IsBounded :
      (b : StreamingDriftBuffer V) (t : String) (buf : List V)
      → length buf ≤ b.per_track_capacity
      → IsBounded b
      → IsBounded (write b t buf)
  write-IsBounded b t buf fits h = record {
    tracks = All-put (λ x. length x ≤ b.per_track_capacity) t buf b.buffers fits h.tracks;
  }

  -- A full track keeps its length.
  pub length-overflow :
      (s : Strategy) (idx : ℕ) (v : V) (buf buf' : List V)
      → overflow s idx v buf ≡ ok buf'
      → length buf' ≡ length buf
  unfolding overflow
  length-overflow reservoir idx v [] buf' e = cc
  length-overflow reservoir idx v (x ∷ xs) buf' e = ground (arith, length-set (x ∷ xs) idx v)
  length-overflow fifo idx v [] buf' e = cc
  length-overflow fifo idx v (x ∷ xs) buf' e = ground (arith, length-append xs (v ∷ []))

  -- Whatever `ingest` does, raising included, every track still fits its share.
  pub ingest-IsBounded :
      (b : StreamingDriftBuffer V) (idx : ℕ) (v : V) (t : String)
      → IsBounded b
      → IsBounded (ingest b idx v t).0
  unfolding ingest
  ingest-IsBounded b idx v t h =
      let buf = track_of b t in
      let fits : length buf ≤ b.per_track_capacity = track_of-le b t h in
      elim (Bool-cases (ltb (length buf) b.per_track_capacity)) [
        | inl room ↦ rw room (write-IsBounded b t _ (ground (arith, length-append buf (v ∷ []))) h)
        | inr full ↦ elim (Result-cases (overflow b.sample_strategy idx v buf)) [
          | inl (buf', e) ↦
              rw (full, e)
                (write-IsBounded b t buf'
                  (omega (arith, length-overflow b.sample_strategy idx v buf buf' e)) h)
          | inr (x, e) ↦ rw (full, e) (write-IsBounded b t buf fits h)
        ]
      ]

  overflow-ok_iff :
      (s : Strategy) (idx : ℕ) (v : V) (buf : List V)
      → 0 < length buf
      → (buf' : List V) × (overflow s idx v buf ≡ ok buf')
  unfolding overflow
  overflow-ok_iff s idx v [] h = absurd (omega arith)
  overflow-ok_iff reservoir idx v (x ∷ xs) h = (set (x ∷ xs) idx v, refl)
  overflow-ok_iff fifo idx v (x ∷ xs) h = (xs ++ v ∷ [], refl)

  overflow-err :
      (s : Strategy) (idx : ℕ) (v : V) (buf : List V)
      → length buf ≡ 0
      → (e : Error) × (overflow s idx v buf ≡ err e)
  unfolding overflow
  overflow-err s idx v (x ∷ xs) h = absurd (omega arith)
  overflow-err reservoir idx v [] h = (value_error, refl)
  overflow-err fifo idx v [] h = (index_error, refl)

  -- `ingest` raises exactly when the share of a track is zero.
  pub ingest_raises_iff :
      (b : StreamingDriftBuffer V) (idx : ℕ) (v : V) (t : String)
      → IsBounded b
      → ((ingest b idx v t).1 ≢ none) ↔ (b.per_track_capacity ≡ 0)
  unfolding ingest
  ingest_raises_iff b idx v t h =
      let buf = track_of b t in
      let fits : length buf ≤ b.per_track_capacity = track_of-le b t h in
      elim (Bool-cases (ltb (length buf) b.per_track_capacity)) [
        | inl room ↦ ground arith
        | inr full ↦ elim (dec_eq b.per_track_capacity 0) [
          | yes z ↦ ground (arith, overflow-err b.sample_strategy idx v buf)
          | no n ↦ ground (arith, overflow-ok_iff b.sample_strategy idx v buf)
        ]
      ]

  -- A new buffer fits, and the shares of the two tracks fit the capacity.
  pub init-IsBounded :
      (capacity : ℕ) (strategy : String) (b : StreamingDriftBuffer V)
      → init capacity strategy ≡ ok b
      → IsBounded b × (b.per_track_capacity * 2 ≤ b.capacity) × (b.buffers ≡ no_tracks)
  unfolding init values
  init-IsBounded capacity strategy b e = ground arith
