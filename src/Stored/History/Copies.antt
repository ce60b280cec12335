-- ===== src/Stored/History/Copies.antt =====
-- Copies of a history (evaluator/storage/json_store.py, `clone` and `to_in_memory`) and the store in
-- memory (evaluator/storage/in_memory_store.py). A deep copy is the same value.
use post_rag_drift_evaluator.Prelude.{
  ℕ, String, Bool, ◌≡◌, refl, ap, ◌∙◌, All, Option, none, some, List, [], ◌∷◌, ◌++◌, map, length,
  ltb,
}
use post_rag_drift_evaluator.Models.Records.{EvaluationRecord}
use post_rag_drift_evaluator.Stored.Readers.{Loaded, loaded, ◌>>=◌}
use post_rag_drift_evaluator.Stored.Records.{Identified}
use post_rag_drift_evaluator.Stored.History.{
  Content, JsonHistoryStore, Json, line_of, load_all_records,
}
use post_rag_drift_evaluator.Stored.History.Saving.{
  Drawn, initialised, IsWritable, lines_of, store_of, load_lines-holding,
}

pub record InMemoryHistoryStore (F : Type 0) : Type 0 where
  pub records : List (Identified (EvaluationRecord F))

module _ {F : Type 0} where
  -- `InMemoryHistoryStore(records)`
  abbrev pub in_memory : Option (List (Identified (EvaluationRecord F))) → InMemoryHistoryStore F
  in_memory none = record { records = [] }
  in_memory (some rs) = record { records = rs }

  unfoldable pub append :
      Identified (EvaluationRecord F) → InMemoryHistoryStore F → InMemoryHistoryStore F
  append r s = record { records = s.records ++ (r ∷ []) }

  unfoldable pub clone_in_memory : InMemoryHistoryStore F → InMemoryHistoryStore F
  clone_in_memory s = in_memory (some s.records)

  abbrev pub size : InMemoryHistoryStore F → ℕ
  size s = length s.records

  abbrev pub is_filled : InMemoryHistoryStore F → Bool
  is_filled s = ltb 0 (size s)

module _ {F : Type 0} (j : Json F) where
  abbrev clone_content : List (Identified (EvaluationRecord F)) → Content
  clone_content rs = record { lines = map (line_of j) rs; rest = "" }

  -- The store at the path of the clone, with the temporary file that stands beside it.
  unfoldable pub clone : String → F → Option Content → JsonHistoryStore → Loaded JsonHistoryStore
  unfolding load_all_records
  clone uuid4 now temporary s = do
    rs ← load_all_records j uuid4 now s
    loaded (record { file = some (clone_content rs); temporary = temporary })

  unfoldable pub to_in_memory : String → F → JsonHistoryStore → Loaded (InMemoryHistoryStore F)
  unfolding load_all_records
  to_in_memory uuid4 now s = do rs ← load_all_records j uuid4 now s; loaded (in_memory (some rs))

  load_all-store_of :
      (uuid4 : String) (now : F) (ds : List (Drawn F)) (stale : Option (List (Drawn F)))
      → j.strip "" ≡ ""
      → All (IsWritable j) ds
      → load_all_records j uuid4 now (store_of j ds stale) ≡ loaded (map (initialised j) ds)
  unfolding load_all_records
  load_all-store_of uuid4 now ds none blank hs = load_lines-holding j blank uuid4 now ds hs
  load_all-store_of uuid4 now ds (some stale) blank hs = load_lines-holding j blank uuid4 now ds hs

  lines-initialised :
      (ds : List (Drawn F)) → map (line_of j) (map (initialised j) ds) ≡ lines_of j ds
  lines-initialised [] = refl
  lines-initialised (d ∷ ds) = ap (λ ls. line_of j (initialised j d) ∷ ls) (lines-initialised ds)

  -- The clone of a history, at a path with no temporary file, is a store whose file is the same, and
  -- the snapshot in memory holds the records of the file; what an interrupted save has left beside
  -- the file is in neither. This is so if `json` reads back the line of each record.
  pub clone-to_in_memory :
      (uuid4 : String) (now : F) (ds : List (Drawn F)) (stale : Option (List (Drawn F)))
      → j.strip "" ≡ ""
      → All (IsWritable j) ds
      → (clone uuid4 now none (store_of j ds stale) ≡ loaded (store_of j ds none))
        × (to_in_memory uuid4 now (store_of j ds stale)
            ≡ loaded (in_memory (some (map (initialised j) ds))))
  unfolding clone to_in_memory
  clone-to_in_memory uuid4 now ds stale blank hs =
      let read = load_all-store_of uuid4 now ds stale blank hs in
      (
        ap (λ m. do rs ← m; loaded (record { file = some (clone_content rs); temporary = none }))
              read
            ∙ ap
                (λ ls.
                  loaded
                    (record { file = some (record { lines = ls; rest = "" }); temporary = none }))
                (lines-initialised ds),
        ap (λ m. do rs ← m; loaded (in_memory (some rs))) read,
      )
