-- ===== src/Latent/Streaming/Window.antt =====
-- The first-in-first-out buffer beside the stream of each track.

use post_rag_drift_evaluator.Prelude.{
  ℕ, ◌-◌, ◌/◌, ◌≤◌, ◌<◌, String, ◌≡◌, refl, inl, inr, List, [], ◌∷◌, ◌++◌, arith, ltb, length,
  length-append, str_eq, if◌then◌else◌, append_assoc, append-nil, length-drop, eq_iff, Bool-cases,
  ap, ◌∙◌,
}
use post_rag_drift_evaluator.Result.{ok}
use post_rag_drift_evaluator.Dict.{get, get-put}
use post_rag_drift_evaluator.Latent.Adaptive.{append_bounded}
use post_rag_drift_evaluator.Latent.Adaptive.Window.{last_n, append_bounded-last_n}
use post_rag_drift_evaluator.Latent.Streaming.{
  StreamingDriftBuffer, fifo, track_of, write, overflow, ingest, new,
}

module _ {ℓ} {V : Type ℓ} where
  -- The stream of one track in a sequence of arrivals.
  abbrev pub arrivals : String → List (String × V) → List V
  arrivals t [] = []
  arrivals t ((s, v) ∷ events) =
      let rest = arrivals t events in if str_eq s t then v ∷ rest else rest

  -- The buffer after a sequence of arrivals.
  unfoldable pub ingest_all : StreamingDriftBuffer V → List (String × V) → StreamingDriftBuffer V
  ingest_all b [] = b
  ingest_all b ((t, v) ∷ events) = ingest_all (ingest b 0 v t).0 events

  track_of-write :
      (b : StreamingDriftBuffer V) (s t : String) (buf : List V)
      → track_of (write b s buf) t ≡ (if str_eq s t then buf else track_of b t)
  track_of-write b s t buf = ground (arith, get-put s t buf b.buffers)

  -- On a list that is not over-full, making room and appending is a bounded append.
  overflow-append_bounded :
      (n : ℕ) (v : V) (buf : List V)
      → 0 < n
      → length buf ≡ n
      → overflow fifo 0 v buf ≡ ok (append_bounded n v buf)
  unfolding overflow append_bounded
  overflow-append_bounded n v [] p h = absurd (omega arith)
  overflow-append_bounded n v (x ∷ xs) p h = ground (arith, length-append xs (v ∷ []))

  ingest_fifo :
      (b : StreamingDriftBuffer V) (s : String) (v : V)
      → b.sample_strategy ≡ fifo
      → 0 < b.per_track_capacity
      → length (track_of b s) ≤ b.per_track_capacity
      → (ingest b 0 v s).0 ≡ write b s (append_bounded b.per_track_capacity v (track_of b s))
  unfolding ingest
  ingest_fifo b s v f p h =
      let buf = track_of b s in
      elim (Bool-cases (ltb (length buf) b.per_track_capacity)) [
        | inl room ↦
            rw room
              (ap (write b s) (unfold append_bounded in ground (arith, length-append buf (v ∷ []))))
        | inr full ↦
            let e : overflow b.sample_strategy 0 v buf
                ≡ ok (append_bounded b.per_track_capacity v buf) =
              rw f (overflow-append_bounded b.per_track_capacity v buf p (ground arith)) in
            rw (full, e)
      ]

  -- One arrival moves the window of its track, and no other.
  track_of-ingest :
      (b : StreamingDriftBuffer V) (s t : String) (v : V)
      → b.sample_strategy ≡ fifo
      → 0 < b.per_track_capacity
      → length (track_of b s) ≤ b.per_track_capacity
      → track_of (ingest b 0 v s).0 t ≡ (
          if str_eq s t then append_bounded b.per_track_capacity v (track_of b s) else track_of b t)
  track_of-ingest b s t v f p h =
      ap (λ c. track_of c t) (ingest_fifo b s v f p h) ∙ track_of-write b s t _

  ingest_config :
      (b : StreamingDriftBuffer V) (s : String) (v : V)
      → ((ingest b 0 v s).0.sample_strategy ≡ b.sample_strategy)
        × ((ingest b 0 v s).0.per_track_capacity ≡ b.per_track_capacity)
  unfolding ingest
  ingest_config b s v = ground arith

  arrivals-step :
      (seen : String → List V) (s t : String) (v : V) (rest : List V)
      → (if str_eq s t then seen s ++ v ∷ [] else seen t) ++ rest
        ≡ seen t ++ (if str_eq s t then v ∷ rest else rest)
  arrivals-step seen s t v rest = elim (Bool-cases (str_eq s t)) [
    | inl e ↦
        let same : seen s ≡ seen t = ap seen ((eq_iff s t).0 e) in
        rw (e, same) (append_assoc (seen t) (v ∷ []) rest)
    | inr e ↦ rw e
  ]

  track_of-step :
      (b : StreamingDriftBuffer V) (s t : String) (v : V) (seen_s seen_t : List V)
      → b.sample_strategy ≡ fifo
      → 0 < b.per_track_capacity
      → track_of b s ≡ last_n b.per_track_capacity seen_s
      → track_of b t ≡ last_n b.per_track_capacity seen_t
      → track_of (ingest b 0 v s).0 t
        ≡ last_n b.per_track_capacity (if str_eq s t then seen_s ++ v ∷ [] else seen_t)
  track_of-step b s t v seen_s seen_t f p hs ht =
      let n = b.per_track_capacity in
      track_of-ingest b s t v f p (rw hs (omega (arith, length-drop (length seen_s - n) seen_s)))
      ∙ elim (Bool-cases (str_eq s t)) [
        | inl e ↦ rw (e, hs) (append_bounded-last_n n v seen_s)
        | inr e ↦ rw e ht
      ]

  track_of-ingest_all :
      (events : List (String × V)) (b : StreamingDriftBuffer V) (seen : String → List V)
      → b.sample_strategy ≡ fifo
      → 0 < b.per_track_capacity
      → ((t : String) → track_of b t ≡ last_n b.per_track_capacity (seen t))
      → (t : String)
      → track_of (ingest_all b events) t ≡ last_n b.per_track_capacity (seen t ++ arrivals t events)
  unfolding ingest_all
  track_of-ingest_all [] b seen f p h t = rw append-nil (h t)
  track_of-ingest_all ((s, v) ∷ events) b seen f p h t =
      let (f', p') = ingest_config b s v in
      let seen' : String → List V = λ t'. if str_eq s t' then seen s ++ v ∷ [] else seen t' in
      track_of-ingest_all events (ingest b 0 v s).0 seen' (f' ∙ f) (rw p' p)
        (λ t'. rw p' (track_of-step b s t' v (seen s) (seen t') f p (h s) (h t'))) t
      ∙ rw p' (ap (last_n b.per_track_capacity) (arrivals-step seen s t v (arrivals t events)))

  -- From a new first-in-first-out buffer with room for a vector, after any arrivals each track
  -- holds exactly the last `capacity // 2` vectors that arrived on it, in order.
  pub ingest_all-window :
      (capacity : ℕ) (events : List (String × V)) (t : String)
      → 2 ≤ capacity
      → track_of (ingest_all (new capacity fifo) events) t
        ≡ last_n (capacity / 2) (arrivals t events)
  unfolding get
  ingest_all-window capacity events t h =
      track_of-ingest_all events (new capacity fifo) (λ _. []) refl (omega arith)
        (λ t'. ground arith) t
