-- ===== src/Ingestion/Stream/Tracking.antt =====
-- What becomes of each message of the stream (ingestion/redis_queue.py).
use post_rag_drift_evaluator.Prelude.{
  ℕ, zero, suc, ◌+◌, ◌≤◌, ◌<◌, ◌≡◌, refl, sym, ◌∙◌, ap, subst, Bool, true, false, ◌&&◌, ◌||◌, inl,
  inr, none, some, List, [], ◌∷◌, ◌++◌, length, ltb, leb, ◌==◌, arith, Bool-cases, false≢true,
  append_assoc, append-nil,
}
use post_rag_drift_evaluator.Ingestion.Stream.Server.{
  Message, frame, no_frame, bad_json, bad_utf8, Redis, Documented, member, entry, IsDelivery,
}
use post_rag_drift_evaluator.Ingestion.Stream.Ascending.{ids, IsAscending, IsAscending-le}
use post_rag_drift_evaluator.Ingestion.Stream.{
  CallResult, answered, unsent, unanswered, Collected, resume, acknowledge, publish, collect,
}

module _ {A : Type 0} where
  abbrev pub is_valid : Message A → Bool
  is_valid (frame a) = true
  is_valid _ = false

  abbrev pub is_frame : ℕ → List (Message A) → Bool
  is_frame i es = elim (entry i es) [ none ↦ false | some m ↦ is_valid m ]

  is_frame-entry :
      (i : ℕ) (es : List (Message A)) (m : Message A)
      → entry i es ≡ some m
      → is_frame i es ≡ is_valid m
  is_frame-entry i es m e = ap (λ o. elim o [ none ↦ false | some m ↦ is_valid m ]) e

  pub is_frame-lt : (i : ℕ) (es : List (Message A)) → is_frame i es ≡ true → i < length es
  is_frame-lt i [] f = absurd (ground arith)
  is_frame-lt zero (x ∷ es) f = omega arith
  is_frame-lt (suc i) (x ∷ es) f = omega (arith, is_frame-lt i es f)

  is_frame_same :
      (i j : ℕ) (f : Bool) (es : List (Message A))
      → is_frame j es ≡ f
      → i == j ≡ true
      → is_frame i es ≡ f
  is_frame_same i j f es e h =
      let same : j ≡ i = ground arith in subst (λ k. is_frame k es ≡ f) same e

  -- Membership in a delivery is a matter of the number alone.
  member_head :
      (i c n : ℕ) (f b : Bool) (es : List (Message A))
      → is_frame c es ≡ f
      → b ≡ (is_frame i es && (leb (suc c) i && ltb i (suc c + n)))
      → ((f && (i == c)) || b) ≡ (is_frame i es && (leb c i && ltb i (c + suc n)))
  member_head i c n f b es e h = elim (Bool-cases (i == c)) [
    | inl same ↦ ground (arith, is_frame_same i c f es e same)
    | inr other ↦ ground arith
  ]

  pub member-append :
      (i : ℕ) (xs ys : List (ℕ × A))
      → member i (ids (xs ++ ys)) ≡ (member i (ids xs) || member i (ids ys))
  member-append i [] ys = refl
  member-append i (x ∷ xs) ys = ground (arith, member-append i xs ys)

  pub entry-lt :
      (i : ℕ) (es : List (Message A)) (m : Message A) → entry i es ≡ some m → i < length es
  entry-lt i [] m e = absurd (ground arith)
  entry-lt zero (x ∷ es) m e = omega arith
  entry-lt (suc i) (x ∷ es) m e = omega (arith, entry-lt i es m e)

  entry-append :
      (i : ℕ) (es ms : List (Message A)) → i < length es → entry i (es ++ ms) ≡ entry i es
  entry-append i [] ms h = absurd (omega arith)
  entry-append zero (x ∷ es) ms h = refl
  entry-append (suc i) (x ∷ es) ms h = entry-append i es ms (omega arith)

  pub is_frame-append :
      (i : ℕ) (es ms : List (Message A)) → i < length es → is_frame i (es ++ ms) ≡ is_frame i es
  is_frame-append i es ms h =
      ap (λ o. elim o [ none ↦ false | some m ↦ is_valid m ]) (entry-append i es ms h)

  pub delivered-le :
      (c : ℕ) (es : List (Message A)) (ms : List (ℕ × Message A))
      → IsDelivery c es ms
      → c ≤ length es
      → c + length ms ≤ length es
  delivered-le c es [] h l = omega arith
  delivered-le c es ((i, m) ∷ ms) (e, h, rest) l =
      omega (arith, delivered-le (suc c) es ms rest (omega (arith, entry-lt c es m h)))

module _ {S A : Type 0} ⦃r : Redis S A⦄ (d : Documented S A) where
  open r use {xadd, xack, stream, cursor, is_pending}
  open d use {stream-xadd, cursor-xadd, is_pending-xadd, stream-xack, cursor-xack, is_pending-xack}

  -- An XACK, whatever becomes of it.
  acknowledge-stream :
      (o : CallResult) (js : List ℕ) (s : S) → stream (acknowledge xack o js s) ≡ stream s
  unfolding acknowledge
  acknowledge-stream answered js s = stream-xack js s
  acknowledge-stream unsent js s = refl
  acknowledge-stream unanswered js s = stream-xack js s

  acknowledge-cursor :
      (o : CallResult) (js : List ℕ) (s : S) → cursor (acknowledge xack o js s) ≡ cursor s
  unfolding acknowledge
  acknowledge-cursor answered js s = cursor-xack js s
  acknowledge-cursor unsent js s = refl
  acknowledge-cursor unanswered js s = cursor-xack js s

  -- It leaves a message that it does not name.
  acknowledge-is_pending :
      (o : CallResult) (js : List ℕ) (s : S) (i : ℕ)
      → member i js ≡ false
      → is_pending i (acknowledge xack o js s) ≡ is_pending i s
  unfolding acknowledge
  acknowledge-is_pending answered js s i h = ground (arith, is_pending-xack js s i, h)
  acknowledge-is_pending unsent js s i h = refl
  acknowledge-is_pending unanswered js s i h = ground (arith, is_pending-xack js s i, h)

  acknowledge-pending_before :
      (o : CallResult) (js : List ℕ) (s : S) (i : ℕ)
      → is_pending i (acknowledge xack o js s) ≡ true
      → is_pending i s ≡ true
  unfolding acknowledge
  acknowledge-pending_before answered js s i h = ground (arith, is_pending-xack js s i, h)
  acknowledge-pending_before unsent js s i h = h
  acknowledge-pending_before unanswered js s i h = ground (arith, is_pending-xack js s i, h)

  pub publish-stream : (ms : List (Message A)) (s : S) → stream (publish ms s) ≡ stream s ++ ms
  unfolding publish
  publish-stream [] s = sym (append-nil (stream s))
  publish-stream (m ∷ ms) s =
      rw (publish-stream ms (xadd m s), stream-xadd m s) (append_assoc (stream s) (m ∷ []) ms)

  pub publish-cursor : (ms : List (Message A)) (s : S) → cursor (publish ms s) ≡ cursor s
  unfolding publish
  publish-cursor [] s = refl
  publish-cursor (m ∷ ms) s = publish-cursor ms (xadd m s) ∙ cursor-xadd m s

  pub publish-is_pending :
      (ms : List (Message A)) (s : S) (i : ℕ) → is_pending i (publish ms s) ≡ is_pending i s
  unfolding publish
  publish-is_pending [] s i = refl
  publish-is_pending (m ∷ ms) s i = publish-is_pending ms (xadd m s) i ∙ is_pending-xadd m s i

  -- What holds where the loop goes on, and where it ends, holds behind an XACK.
  resumed {κ} :
      (P : Collected S A → Type κ) (o : CallResult) (s : S) (rest : Collected S A)
      → P rest
      → P (record { batch = []; server = s; finished = false })
      → P (resume o s rest)
  resumed P answered s rest p q = p
  resumed P unsent s rest p q = q
  resumed P unanswered s rest p q = q

  -- The loop behind a message that is no frame.
  abbrev passed : (ℕ → CallResult) → ℕ → List (ℕ × Message A) → S → Collected S A
  passed skip j ms s =
      let s' = acknowledge xack (skip j) (j ∷ []) s in resume (skip j) s' (collect skip ms s')

  passed-stream :
      (skip : ℕ → CallResult) (j : ℕ) (ms : List (ℕ × Message A)) (s : S)
      → ((s' : S) → stream (collect skip ms s').server ≡ stream s')
      → stream (passed skip j ms s).server ≡ stream s
  passed-stream skip j ms s h =
      let s' = acknowledge xack (skip j) (j ∷ []) s in
      let e = acknowledge-stream (skip j) (j ∷ []) s in
      resumed (λ o. stream o.server ≡ stream s) (skip j) s' (collect skip ms s') (h s' ∙ e) e

  pub collect-stream :
      (skip : ℕ → CallResult) (ms : List (ℕ × Message A)) (s : S)
      → stream (collect skip ms s).server ≡ stream s
  unfolding collect
  collect-stream skip [] s = refl
  collect-stream skip ((i, frame a) ∷ ms) s = collect-stream skip ms s
  collect-stream skip ((i, no_frame) ∷ ms) s =
      passed-stream skip i ms s (λ s'. collect-stream skip ms s')
  collect-stream skip ((i, bad_json) ∷ ms) s =
      passed-stream skip i ms s (λ s'. collect-stream skip ms s')
  collect-stream skip ((i, bad_utf8) ∷ ms) s = refl

  passed-cursor :
      (skip : ℕ → CallResult) (j : ℕ) (ms : List (ℕ × Message A)) (s : S)
      → ((s' : S) → cursor (collect skip ms s').server ≡ cursor s')
      → cursor (passed skip j ms s).server ≡ cursor s
  passed-cursor skip j ms s h =
      let s' = acknowledge xack (skip j) (j ∷ []) s in
      let e = acknowledge-cursor (skip j) (j ∷ []) s in
      resumed (λ o. cursor o.server ≡ cursor s) (skip j) s' (collect skip ms s') (h s' ∙ e) e

  pub collect-cursor :
      (skip : ℕ → CallResult) (ms : List (ℕ × Message A)) (s : S)
      → cursor (collect skip ms s).server ≡ cursor s
  unfolding collect
  collect-cursor skip [] s = refl
  collect-cursor skip ((i, frame a) ∷ ms) s = collect-cursor skip ms s
  collect-cursor skip ((i, no_frame) ∷ ms) s =
      passed-cursor skip i ms s (λ s'. collect-cursor skip ms s')
  collect-cursor skip ((i, bad_json) ∷ ms) s =
      passed-cursor skip i ms s (λ s'. collect-cursor skip ms s')
  collect-cursor skip ((i, bad_utf8) ∷ ms) s = refl

  skipped_frame :
      (j c : ℕ) (es : List (Message A)) (m : Message A)
      → j ≡ c
      → entry c es ≡ some m
      → is_valid m ≡ false
      → is_frame j es ≡ false
  skipped_frame j c es m e h v =
      is_frame_same j c false es (is_frame-entry c es m h ∙ v) (ground arith)

  -- The loop acknowledges only what is no frame.
  passed-is_pending :
      (skip : ℕ → CallResult) (i j : ℕ) (es : List (Message A)) (ms : List (ℕ × Message A)) (s : S)
      → is_frame i es ≡ true
      → is_frame j es ≡ false
      → ((s' : S) → is_pending i (collect skip ms s').server ≡ is_pending i s')
      → is_pending i (passed skip j ms s).server ≡ is_pending i s
  passed-is_pending skip i j es ms s f e h = elim (Bool-cases (i == j)) [
    | inl same ↦ absurd (false≢true (sym (is_frame_same i j false es e same) ∙ f))
    | inr other ↦
        let s' = acknowledge xack (skip j) (j ∷ []) s in
        let k = acknowledge-is_pending (skip j) (j ∷ []) s i (ground arith) in
        resumed (λ o. is_pending i o.server ≡ is_pending i s) (skip j) s' (collect skip ms s')
          (h s' ∙ k) k
  ]

  pub collect-is_pending :
      (skip : ℕ → CallResult) (c : ℕ) (es : List (Message A)) (ms : List (ℕ × Message A)) (s : S)
      (i : ℕ)
      → IsDelivery c es ms
      → is_frame i es ≡ true
      → is_pending i (collect skip ms s).server ≡ is_pending i s
  unfolding collect
  collect-is_pending skip c es [] s i h f = refl
  collect-is_pending skip c es ((j, frame a) ∷ ms) s i (e, h, hs) f =
      collect-is_pending skip (suc c) es ms s i hs f
  collect-is_pending skip c es ((j, no_frame) ∷ ms) s i (e, h, hs) f =
      passed-is_pending skip i j es ms s f (skipped_frame j c es _ e h refl)
        (λ s'. collect-is_pending skip (suc c) es ms s' i hs f)
  collect-is_pending skip c es ((j, bad_json) ∷ ms) s i (e, h, hs) f =
      passed-is_pending skip i j es ms s f (skipped_frame j c es _ e h refl)
        (λ s'. collect-is_pending skip (suc c) es ms s' i hs f)
  collect-is_pending skip c es ((j, bad_utf8) ∷ ms) s i h f = refl

  passed-pending_before :
      (skip : ℕ → CallResult) (i j : ℕ) (ms : List (ℕ × Message A)) (s : S)
      → ((s' : S) → is_pending i (collect skip ms s').server ≡ true → is_pending i s' ≡ true)
      → is_pending i (passed skip j ms s).server ≡ true
      → is_pending i s ≡ true
  passed-pending_before skip i j ms s h =
      let s' = acknowledge xack (skip j) (j ∷ []) s in
      let k = acknowledge-pending_before (skip j) (j ∷ []) s i in
      resumed (λ o. is_pending i o.server ≡ true → is_pending i s ≡ true) (skip j) s'
        (collect skip ms s') (λ p. k (h s' p)) k

  pub collect-pending_before :
      (skip : ℕ → CallResult) (ms : List (ℕ × Message A)) (s : S) (i : ℕ)
      → is_pending i (collect skip ms s).server ≡ true
      → is_pending i s ≡ true
  unfolding collect
  collect-pending_before skip [] s i h = h
  collect-pending_before skip ((j, frame a) ∷ ms) s i h = collect-pending_before skip ms s i h
  collect-pending_before skip ((j, no_frame) ∷ ms) s i h =
      passed-pending_before skip i j ms s (λ s'. collect-pending_before skip ms s' i) h
  collect-pending_before skip ((j, bad_json) ∷ ms) s i h =
      passed-pending_before skip i j ms s (λ s'. collect-pending_before skip ms s' i) h
  collect-pending_before skip ((j, bad_utf8) ∷ ms) s i h = h

  abbrev IsBatch : ℕ → ℕ → ℕ → List (Message A) → Collected S A → Type 0
  IsBatch i c n es o =
      o.finished ≡ true → member i (ids o.batch) ≡ (is_frame i es && (leb c i && ltb i (c + n)))

  passed-IsBatch :
      (skip : ℕ → CallResult) (i j c n : ℕ) (es : List (Message A)) (ms : List (ℕ × Message A))
      (s : S)
      → is_frame c es ≡ false
      → ((s' : S) → IsBatch i (suc c) n es (collect skip ms s'))
      → IsBatch i c (suc n) es (passed skip j ms s)
  passed-IsBatch skip i j c n es ms s f h =
      let s' = acknowledge xack (skip j) (j ∷ []) s in
      resumed (IsBatch i c (suc n) es) (skip j) s' (collect skip ms s')
        (λ e. member_head i c n false _ es f (h s' e)) (λ e. absurd (ground arith))

  pub collect-IsBatch :
      (skip : ℕ → CallResult) (c : ℕ) (es : List (Message A)) (ms : List (ℕ × Message A)) (s : S)
      (i : ℕ)
      → IsDelivery c es ms
      → IsBatch i c (length ms) es (collect skip ms s)
  unfolding collect
  collect-IsBatch skip c es [] s i h f = ground arith
  collect-IsBatch skip c es ((j, frame a) ∷ ms) s i (e, h, hs) f = rw e (
      member_head i c (length ms) true _ es (is_frame-entry c es (frame a) h)
        (collect-IsBatch skip (suc c) es ms s i hs f))
  collect-IsBatch skip c es ((j, no_frame) ∷ ms) s i (e, h, hs) f =
      passed-IsBatch skip i j c (length ms) es ms s (is_frame-entry c es no_frame h)
        (λ s'. collect-IsBatch skip (suc c) es ms s' i hs) f
  collect-IsBatch skip c es ((j, bad_json) ∷ ms) s i (e, h, hs) f =
      passed-IsBatch skip i j c (length ms) es ms s (is_frame-entry c es bad_json h)
        (λ s'. collect-IsBatch skip (suc c) es ms s' i hs) f
  collect-IsBatch skip c es ((j, bad_utf8) ∷ ms) s i h f = absurd (ground arith)

  passed-IsAscending :
      (skip : ℕ → CallResult) (j c n : ℕ) (ms : List (ℕ × Message A)) (s : S)
      → ((s' : S) → IsAscending (suc c) (suc c + n) (ids (collect skip ms s').batch))
      → IsAscending c (c + suc n) (ids (passed skip j ms s).batch)
  passed-IsAscending skip j c n ms s h =
      let s' = acknowledge xack (skip j) (j ∷ []) s in
      resumed (λ o. IsAscending c (c + suc n) (ids o.batch)) (skip j) s' (collect skip ms s')
        (IsAscending-le (suc c) c _ _ _ (omega arith) (omega arith) (h s')) (omega arith)

  pub collect-IsAscending :
      (skip : ℕ → CallResult) (c : ℕ) (es : List (Message A)) (ms : List (ℕ × Message A)) (s : S)
      → IsDelivery c es ms
      → IsAscending c (c + length ms) (ids (collect skip ms s).batch)
  unfolding collect
  collect-IsAscending skip c es [] s h = omega arith
  collect-IsAscending skip c es ((j, frame a) ∷ ms) s (e, h, hs) = (
    omega arith,
    IsAscending-le (suc c) (suc j) _ _ _ (omega arith) (omega arith)
        (collect-IsAscending skip (suc c) es ms s hs),
  )
  collect-IsAscending skip c es ((j, no_frame) ∷ ms) s (e, h, hs) =
      passed-IsAscending skip j c (length ms) ms s
        (λ s'. collect-IsAscending skip (suc c) es ms s' hs)
  collect-IsAscending skip c es ((j, bad_json) ∷ ms) s (e, h, hs) =
      passed-IsAscending skip j c (length ms) ms s
        (λ s'. collect-IsAscending skip (suc c) es ms s' hs)
  collect-IsAscending skip c es ((j, bad_utf8) ∷ ms) s h = omega arith
