-- ===== src/Ingestion/Stream/Ascending.antt =====
-- Strictly ascending message numbers, for what ingestion/redis_queue.py has stored.
use post_rag_drift_evaluator.Prelude.{
  ℕ, suc, ◌≤◌, ◌<◌, List, [], ◌∷◌, ◌++◌, map, arith, ◌≡◌, refl, false,
}
use post_rag_drift_evaluator.Ingestion.Stream.Server.{member}

-- Strictly ascending numbers from the first bound, below the second.
abbrev pub IsAscending : ℕ → ℕ → List ℕ → Type 0
IsAscending lo hi [] = lo ≤ hi
IsAscending lo hi (x ∷ xs) = lo ≤ x × IsAscending (suc x) hi xs

pub IsAscending-le :
    (lo lo' hi hi' : ℕ) (xs : List ℕ)
    → lo' ≤ lo
    → hi ≤ hi'
    → IsAscending lo hi xs
    → IsAscending lo' hi' xs
IsAscending-le lo lo' hi hi' [] h h' a = omega arith
IsAscending-le lo lo' hi hi' (x ∷ xs) h h' (l, a) =
    (omega arith, IsAscending-le (suc x) (suc x) hi hi' xs (omega arith) h' a)

module _ {A : Type 0} where
  -- The messages of some frames that were stored.
  abbrev pub ids : List (ℕ × A) → List ℕ
  ids es = map (λ e. e.0) es

  pub IsAscending-append :
      (lo mid hi : ℕ) (xs ys : List (ℕ × A))
      → IsAscending lo mid (ids xs)
      → IsAscending mid hi (ids ys)
      → IsAscending lo hi (ids (xs ++ ys))
  IsAscending-append lo mid hi [] ys h h' = IsAscending-le mid lo hi hi (ids ys) h (omega arith) h'
  IsAscending-append lo mid hi (x ∷ xs) ys (l, h) h' =
      (l, IsAscending-append (suc x.0) mid hi xs ys h h')

pub member-below : (i lo hi : ℕ) (xs : List ℕ) → i < lo → IsAscending lo hi xs → member i xs ≡ false
member-below i lo hi [] l h = refl
member-below i lo hi (x ∷ xs) l (g, h) =
    ground (arith, member-below i (suc x) hi xs (omega arith) h)
