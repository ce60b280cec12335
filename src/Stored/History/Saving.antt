-- ===== src/Stored/History/Saving.antt =====
-- What a history holds after some records are saved (evaluator/storage/json_store.py).
use post_rag_drift_evaluator.Prelude.{
  String, ◌≡◌, refl, sym, ap, All, ◌∙◌, Option, none, some, List, [], ◌∷◌, ◌++◌, map, append_assoc,
  append-nil,
}
use post_rag_drift_evaluator.Models.Records.{EvaluationRecord}
use post_rag_drift_evaluator.Stored.Readers.{loaded}
use post_rag_drift_evaluator.Stored.Records.{
  Identified, post_init, dict_of_record, record_of_dict-dict_of_record,
}
use post_rag_drift_evaluator.Stored.History.{
  Content, JsonHistoryStore, Json, IsReadBack, write, write_lines, blank, line_of, save, load_lines,
  load_all_records,
}

-- A record before `__post_init__`, with what that drew.
pub record Drawn (F : Type 0) : Type 0 where
  pub uuid4 : String
  pub now : F
  pub start : Identified (EvaluationRecord F)

module _ {F : Type 0} (j : Json F) where
  abbrev pub initialised : Drawn F → Identified (EvaluationRecord F)
  initialised d = post_init d.uuid4 d.now d.start

  abbrev pub lines_of : List (Drawn F) → List String
  lines_of ds = map (λ d. line_of j (initialised d)) ds

  -- The file of these records, each on its line.
  abbrev pub holding : List (Drawn F) → Content
  holding ds = record { lines = lines_of ds; rest = "" }

  unfoldable pub save_all : List (Drawn F) → JsonHistoryStore → JsonHistoryStore
  unfolding save
  save_all [] s = s
  save_all (d ∷ ds) s = save_all ds (save j (initialised d) s)

  lines_of-append : (xs ys : List (Drawn F)) → lines_of (xs ++ ys) ≡ lines_of xs ++ lines_of ys
  lines_of-append [] ys = refl
  lines_of-append (x ∷ xs) ys = ap (λ ls. line_of j (initialised x) ∷ ls) (lines_of-append xs ys)

  write_lines-holding :
      (xs : List (Drawn F)) (ls : List String)
      → write_lines (holding xs) ls "" ≡ record { lines = lines_of xs ++ ls; rest = "" }
  write_lines-holding xs [] =
      ap (λ ls. record { lines = ls; rest = "" }) (sym (append-nil (lines_of xs)))
  write_lines-holding xs (l ∷ ls) = refl

  write-holding : (xs ys : List (Drawn F)) → write (holding xs) (holding ys) ≡ holding (xs ++ ys)
  unfolding write
  write-holding xs ys =
      write_lines-holding xs (lines_of ys)
      ∙ ap (λ ls. record { lines = ls; rest = "" }) (sym (lines_of-append xs ys))

  -- The dictionary of a record, which `json` can write.
  abbrev pub IsWritable : Drawn F → Type 0
  IsWritable d = IsReadBack j (dict_of_record (initialised d))

  pub load_lines-holding :
      j.strip "" ≡ ""
      → (uuid4 : String) (now : F) (ds : List (Drawn F)) → All IsWritable ds
      → load_lines j uuid4 now (lines_of ds ++ ("" ∷ [])) ≡ loaded (map initialised ds)
  unfolding load_lines
  load_lines-holding blank uuid4 now [] hs = rw blank refl
  load_lines-holding blank uuid4 now (d ∷ ds) (h, hs) =
      rw
        (
          h.dumps-not_blank,
          h.loads-dumps,
          record_of_dict-dict_of_record d.uuid4 uuid4 d.now now d.start,
          load_lines-holding blank uuid4 now ds hs,
        )
        refl

  -- The state of a history: these records in the file, and those in a temporary file that an
  -- interrupted call has left.
  abbrev pub store_of : List (Drawn F) → Option (List (Drawn F)) → JsonHistoryStore
  store_of old none = record { file = some (holding old); temporary = none }
  store_of old (some stale) = record { file = some (holding old); temporary = some (holding stale) }

  abbrev pub left_over : Option (List (Drawn F)) → List (Drawn F)
  left_over none = []
  left_over (some stale) = stale

  -- The two writes of a save, behind the stale records.
  saved :
      (stale old : List (Drawn F)) (d : Drawn F)
      → ◌≡◌ {A = JsonHistoryStore}
          (record {
            file = some (write (write (holding stale) (holding old)) (holding (d ∷ [])));
            temporary = none;
          })
          (store_of ((stale ++ old) ++ (d ∷ [])) none)
  saved stale old d =
      ap (λ c. record { file = some c; temporary = none })
        (ap (λ c. write c (holding (d ∷ []))) (write-holding stale old)
          ∙ write-holding (stale ++ old) (d ∷ []))

  save-store_of :
      (old : List (Drawn F)) (stale : Option (List (Drawn F))) (d : Drawn F)
      → save j (initialised d) (store_of old stale)
        ≡ store_of ((left_over stale ++ old) ++ (d ∷ [])) none
  unfolding save
  save-store_of old none d = saved [] old d
  save-store_of old (some stale) d = saved stale old d

  save_all-store_of :
      (ds old : List (Drawn F)) → save_all ds (store_of old none) ≡ store_of (old ++ ds) none
  unfolding save_all
  save_all-store_of [] old = ap (λ xs. store_of xs none) (sym (append-nil old))
  save_all-store_of (d ∷ ds) old =
      ap (save_all ds) (save-store_of old none d)
      ∙ save_all-store_of ds (old ++ (d ∷ []))
      ∙ ap (λ xs. store_of xs none) (append_assoc old (d ∷ []) ds)

  -- After one or more records are saved, the history is read back as the old records followed by the
  -- new ones, in order, each as it was saved, if `json` reads the line of each back. What an
  -- interrupted call has left in the temporary file, line by line, comes before them, so that old
  -- records that it had copied are there twice.
  pub save_all-load_all :
      (uuid4 : String) (now : F) (old : List (Drawn F)) (stale : Option (List (Drawn F)))
      (d : Drawn F) (ds : List (Drawn F))
      → j.strip "" ≡ ""
      → All IsWritable ((left_over stale ++ old) ++ (d ∷ ds))
      → load_all_records j uuid4 now (save_all (d ∷ ds) (store_of old stale))
        ≡ loaded (map initialised ((left_over stale ++ old) ++ (d ∷ ds)))
  unfolding load_all_records save_all
  save_all-load_all uuid4 now old stale d ds blank hs =
      let before = left_over stale ++ old in
      ap (λ s. load_all_records j uuid4 now (save_all ds s)) (save-store_of old stale d)
      ∙ ap (load_all_records j uuid4 now) (save_all-store_of ds (before ++ (d ∷ [])))
      ∙ ap (λ xs. load_all_records j uuid4 now (store_of xs none)) (append_assoc before (d ∷ []) ds)
      ∙ load_lines-holding blank uuid4 now (before ++ (d ∷ ds)) hs
