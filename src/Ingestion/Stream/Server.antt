-- ===== src/Ingestion/Stream/Server.antt =====
-- The Redis server, as ingestion/redis_queue.py uses it: one stream with one consumer group. The
-- server is a parameter, a record of its commands and of what an observer sees; `Documented` holds
-- what the manual says of them. Messages are numbered from 0 in the order of the stream.
use post_rag_drift_evaluator.Prelude.{
  ℕ, zero, suc, ◌+◌, ◌≤◌, ◌≡◌, Bool, false, not, ◌&&◌, ◌||◌, ◌⊎◌, ◌≢◌, Option, none, some, List, [],
  ◌∷◌, ◌++◌, length, ltb, leb, ◌==◌,
}

-- What stands in a stream message: a frame under "frame", no such field, text that
-- `model_validate_json` refuses, or bytes that are not UTF-8.
pub data Message (A : Type 0) : Type 0 where
  frame : A → Message A
  no_frame : Message A
  bad_json : Message A
  bad_utf8 : Message A

-- The answer to XGROUP CREATE: done, BUSYGROUP, or another error.
pub data Reply : Type 0 where
  created busy refused : Reply

pub record Redis (S A : Type 0) : Type 0 where
  -- XADD
  pub xadd : Message A → S → S
  -- XGROUP CREATE ... $ MKSTREAM
  pub xgroup_create : S → Reply × S
  -- XREADGROUP ... >, with a bound on the number of messages; `none` when the client raises
  pub xreadgroup : ℕ → S → Option (List (ℕ × Message A)) × S
  -- XACK of some messages
  pub xack : List ℕ → S → S
  -- the messages ever added
  pub stream : S → List (Message A)
  -- the number of the first message that the group was not given, when there is a group
  pub cursor : S → Option ℕ
  -- whether a message is in the group's list of pending entries
  pub is_pending : ℕ → S → Bool

abbrev pub member : ℕ → List ℕ → Bool
member i [] = false
member i (j ∷ js) = i == j || member i js

module _ {A : Type 0} where
  abbrev pub entry : ℕ → List (Message A) → Option (Message A)
  entry i [] = none
  entry zero (m ∷ ms) = some m
  entry (suc i) (m ∷ ms) = entry i ms

  -- The messages of a stream from a number on, each with its number.
  abbrev pub IsDelivery : ℕ → List (Message A) → List (ℕ × Message A) → Type 0
  IsDelivery c es [] = Unit
  IsDelivery c es ((i, m) ∷ ms) = (i ≡ c) × (entry c es ≡ some m) × IsDelivery (suc c) es ms

module _ {S A : Type 0} (r : Redis S A) where
  open r use {xadd, xgroup_create, xreadgroup, xack, stream, cursor, is_pending}

  -- A command that leaves the stream and the group as they are.
  abbrev pub IsUnchanged : S → S → Type 0
  IsUnchanged s s' =
      (stream s' ≡ stream s) × (cursor s' ≡ cursor s) × ((i : ℕ) → is_pending i s' ≡ is_pending i s)

  abbrev pub IsCreation : S → Reply × S → Type 0
  IsCreation s (created, s') =
      (stream s' ≡ stream s)
      × (cursor s ≡ none)
      × (cursor s' ≡ some (length (stream s)))
      × ((i : ℕ) → is_pending i s' ≡ false)
  IsCreation s (busy, s') = IsUnchanged s s' × (cursor s ≢ none)
  IsCreation s (refused, s') = IsUnchanged s s'

  -- A read gives the messages from the cursor on, some of them when there are any, moves the cursor
  -- behind them and makes them pending. Without a group, it raises.
  abbrev pub IsRead : ℕ → S → Option (List (ℕ × Message A)) × S → Type 0
  IsRead n s (none, s') = IsUnchanged s s'
  IsRead n s (some ms, s') =
      (c : ℕ) × (cursor s ≡ some c)
      × IsDelivery c (stream s) ms
      × ((length ms ≡ 0) → (length (stream s) ≤ c) ⊎ (n ≡ 0))
      × (stream s' ≡ stream s)
      × (cursor s' ≡ some (c + length ms))
      × ((i : ℕ) → is_pending i s' ≡ (is_pending i s || (leb c i && ltb i (c + length ms))))

-- The commands as the manual documents them.
pub record Documented (S A : Type 0) ⦃r : Redis S A⦄ : Type 0 where
  pub stream-xadd : (m : Message A) (s : S) → r.stream (r.xadd m s) ≡ r.stream s ++ (m ∷ [])
  pub cursor-xadd : (m : Message A) (s : S) → r.cursor (r.xadd m s) ≡ r.cursor s
  pub is_pending-xadd :
      (m : Message A) (s : S) (i : ℕ) → r.is_pending i (r.xadd m s) ≡ r.is_pending i s
  pub xgroup_create-IsCreation : (s : S) → IsCreation r s (r.xgroup_create s)
  pub xreadgroup-IsRead : (n : ℕ) (s : S) → IsRead r n s (r.xreadgroup n s)
  pub stream-xack : (ids : List ℕ) (s : S) → r.stream (r.xack ids s) ≡ r.stream s
  pub cursor-xack : (ids : List ℕ) (s : S) → r.cursor (r.xack ids s) ≡ r.cursor s
  pub is_pending-xack :
      (ids : List ℕ) (s : S) (i : ℕ)
      → r.is_pending i (r.xack ids s) ≡ (r.is_pending i s && not (member i ids))
