-- ===== src/Ingestion/Stream/Memory.antt =====
-- A stream held in memory: a server that meets what ingestion/redis_queue.py relies on.
use post_rag_drift_evaluator.Prelude.{
  ℕ, zero, suc, ◌+◌, ◌≤◌, ◌≡◌, refl, sym, ap, Bool, false, not, ◌&&◌, ◌||◌, ◌⊎◌, inl, inr, ◌≢◌,
  Option, none, some, List, [], ◌∷◌, ◌++◌, length, take, drop, ltb, leb, arith,
}
use post_rag_drift_evaluator.Ingestion.Stream.Server.{
  Message, Reply, created, busy, Redis, Documented, member, entry, IsDelivery, IsCreation, IsRead,
}
use post_rag_drift_evaluator.Ingestion.Stream.Drain.{IsUp}

pub record Log (A : Type 0) : Type 0 where
  pub entries : List (Message A)
  pub group : Option ℕ
  pub pending : ℕ → Bool

module _ {A : Type 0} where
  abbrev number : ℕ → List (Message A) → List (ℕ × Message A)
  number c [] = []
  number c (m ∷ ms) = (c, m) ∷ number (suc c) ms

  abbrev create : Option ℕ → Log A → Reply × Log A
  create none s = (created, record s { group = some (length s.entries); pending = λ i. false })
  create (some c) s = (busy, s)

  abbrev read : Option ℕ → ℕ → Log A → Option (List (ℕ × Message A)) × Log A
  read none n s = (none, s)
  read (some c) n s =
      let ms = number c (take n (drop c s.entries)) in
      (
        some ms,
        record s {
          group = some (c + length ms);
          pending = λ i. s.pending i || (leb c i && ltb i (c + length ms));
        },
      )

  instance abbrev pub memory : Redis (Log A) A
  memory = record {
    xadd = λ m s. record s { entries = s.entries ++ (m ∷ []) };
    xgroup_create = λ s. create s.group s;
    xreadgroup = λ n s. read s.group n s;
    xack = λ ids s. record s { pending = λ i. s.pending i && not (member i ids) };
    stream = λ s. s.entries;
    cursor = λ s. s.group;
    is_pending = λ i s. s.pending i;
  }

  drop-entry :
      (c : ℕ) (es : List (Message A))
      → ((drop c es ≡ []) × (length es ≤ c))
        ⊎ ((m : Message A) × (drop c es ≡ m ∷ drop (suc c) es) × (entry c es ≡ some m))
  drop-entry zero [] = inl (refl, omega arith)
  drop-entry zero (m ∷ es) = inr (m, refl, refl)
  drop-entry (suc c) [] = inl (refl, omega arith)
  drop-entry (suc c) (x ∷ es) = elim (drop-entry c es) [
    | inl (e, l) ↦ inl (e, omega arith)
    | inr h ↦ inr h
  ]

  number-IsDelivery :
      (n c : ℕ) (es : List (Message A)) → IsDelivery c es (number c (take n (drop c es)))
  number-IsDelivery zero c es = tt
  number-IsDelivery (suc n) c es = elim (drop-entry c es) [
    | inl (e, l) ↦ rw e tt
    | inr (m, e, h) ↦ rw e (refl, h, number-IsDelivery n (suc c) es)
  ]

  number_more :
      (n c : ℕ) (es : List (Message A))
      → length (number c (take n (drop c es))) ≡ 0
      → (length es ≤ c) ⊎ (n ≡ 0)
  number_more zero c es h = inr refl
  number_more (suc n) c es h = elim (drop-entry c es) [
    | inl (e, l) ↦ inl l
    | inr (m, e, _) ↦
        absurd (ground (arith, ap (λ xs. length (number c (take (suc n) xs))) (sym e), h))
  ]

  create-IsCreation : (g : Option ℕ) (s : Log A) → s.group ≡ g → IsCreation memory s (create g s)
  create-IsCreation none s e = (refl, e, refl, λ i. refl)
  create-IsCreation (some c) s e = ((refl, refl, λ i. refl), λ n. ground (arith, e, n))

  read-IsRead : (g : Option ℕ) (n : ℕ) (s : Log A) → s.group ≡ g → IsRead memory n s (read g n s)
  read-IsRead none n s e = (refl, refl, λ i. refl)
  read-IsRead (some c) n s e =
      (c, e, number-IsDelivery n c s.entries, number_more n c s.entries, refl, refl, λ i. refl)

  pub memory-Documented : Documented (Log A) A
  memory-Documented = record {
    stream-xadd = λ m s. refl;
    cursor-xadd = λ m s. refl;
    is_pending-xadd = λ m s i. refl;
    xgroup_create-IsCreation = λ s. create-IsCreation s.group s refl;
    xreadgroup-IsRead = λ n s. read-IsRead s.group n s refl;
    stream-xack = λ ids s. refl;
    cursor-xack = λ ids s. refl;
    is_pending-xack = λ ids s i. refl;
  }

  read_answers : (g : Option ℕ) (c n : ℕ) (s : Log A) → g ≡ some c → (read g n s).0 ≢ none
  read_answers none c n s e = absurd (ground (arith, e))
  read_answers (some c') c n s e = λ h. ground (arith, h)

  pub memory-IsUp : IsUp (Log A) A
  memory-IsUp n c s e = read_answers s.group c n s e
