-- ===== src/Stored/History.antt =====
-- evaluator/storage/json_store.py: `JSONHistoryStore`, with the file and the temporary file beside
-- it. `json` and `str.strip` are a parameter; a text without "\n" is a line.
pub mod Saving
pub mod Copies
use post_rag_drift_evaluator.Prelude.{
  String, concat, Bool, true, false, ◌||◌, Option, none, some, List, [], ◌∷◌, ◌++◌, map, keep,
  str_eq, ◌≡◌, if◌then◌else◌,
}
use post_rag_drift_evaluator.Dict.{Dict}
use post_rag_drift_evaluator.Value.{Value}
use post_rag_drift_evaluator.Result.{Error, type_error}
use post_rag_drift_evaluator.Models.Records.{EvaluationRecord, MetricResult}
use post_rag_drift_evaluator.Stored.Readers.{Loaded, loaded, raised, untyped, ◌>>=◌}
use post_rag_drift_evaluator.Stored.Records.{Identified, dict_of_record, record_of_dict}

-- The lines of a file, and what follows the last line break.
pub record Content : Type 0 where
  pub lines : List String
  pub rest : String

pub record JsonHistoryStore : Type 0 where
  pub file : Option Content
  pub temporary : Option Content

pub record Json (F : Type 0) : Type 0 where
  pub dumps : Dict (Value F) → String
  pub loads : String → Option (Dict (Value F))
  pub strip : String → String

-- What `json` promises of a dictionary that it can write: a line that is not blank, and is read back.
pub record IsReadBack {F : Type 0} (j : Json F) (d : Dict (Value F)) : Type 0 where
  pub dumps-not_blank : str_eq (j.strip (j.dumps d)) "" ≡ false
  pub loads-dumps : j.loads (j.strip (j.dumps d)) ≡ some d

-- a + b
abbrev pub glue : String → String → String
glue a b = if str_eq a "" then b else concat (a ∷ b ∷ [])

-- `f.write(text)` at the end of a file, for a text of some lines and a rest.
abbrev pub write_lines : Content → List String → String → Content
write_lines c [] rest = record c { rest = glue c.rest rest }
write_lines c (l ∷ ls) rest = record { lines = c.lines ++ (glue c.rest l ∷ ls); rest = rest }

unfoldable pub write : Content → Content → Content
write c d = write_lines c d.lines d.rest

abbrev pub blank : Content
blank = record { lines = []; rest = "" }

abbrev pub content_of : Option Content → Content
content_of none = blank
content_of (some c) = c

-- The temporary file is opened for appending when the history exists.
abbrev opened : Option Content → Option Content → Content
opened none temporary = blank
opened (some c) temporary = content_of temporary

module _ {F : Type 0} (j : Json F) where
  abbrev pub line_of : Identified (EvaluationRecord F) → String
  line_of r = j.dumps (dict_of_record r)

  unfoldable pub save : Identified (EvaluationRecord F) → JsonHistoryStore → JsonHistoryStore
  unfolding write
  save r s = record {
    file = some (
        write (write (opened s.file s.temporary) (content_of s.file))
          (record { lines = line_of r ∷ []; rest = "" }));
    temporary = none;
  }

  -- A process that ends within `save` leaves what it had written.
  unfoldable pub interrupted : Content → JsonHistoryStore → JsonHistoryStore
  interrupted written s = record s { temporary = some written }

  -- A line that is no record is skipped; the reader draws `uuid4` and `now` where they are missing.
  abbrev pub add_loaded :
      Loaded (Identified (EvaluationRecord F))
      → Loaded (List (Identified (EvaluationRecord F)))
      → Loaded (List (Identified (EvaluationRecord F)))
  add_loaded (loaded r) rs = do others ← rs; loaded (r ∷ others)
  add_loaded (raised type_error) rs = rs
  add_loaded (raised e) rs = raised e
  add_loaded untyped rs = untyped

  abbrev pub parsed :
      String → F → Option (Dict (Value F)) → Loaded (Identified (EvaluationRecord F))
  parsed uuid4 now none = raised type_error
  parsed uuid4 now (some d) = record_of_dict uuid4 now d

  unfoldable pub load_lines :
      String → F → List String → Loaded (List (Identified (EvaluationRecord F)))
  load_lines uuid4 now [] = loaded []
  load_lines uuid4 now (l ∷ ls) =
      let others = load_lines uuid4 now ls in
      if str_eq (j.strip l) ""
      then others
      else add_loaded (parsed uuid4 now (j.loads (j.strip l))) others

  unfoldable pub load_all_records :
      String → F → JsonHistoryStore → Loaded (List (Identified (EvaluationRecord F)))
  unfolding load_lines
  load_all_records uuid4 now s =
      let c = content_of s.file in load_lines uuid4 now (c.lines ++ (c.rest ∷ []))

  unfoldable pub query_by_run :
      String → F → String → JsonHistoryStore → Loaded (List (Identified (EvaluationRecord F)))
  unfolding load_all_records
  query_by_run uuid4 now run_id s = do
    rs ← load_all_records uuid4 now s
    loaded (keep (λ r. str_eq r.content.run_id run_id) rs)

  abbrev has_metric : String → List (MetricResult F) → Bool
  has_metric name [] = false
  has_metric name (m ∷ ms) = str_eq m.metric_name name || has_metric name ms

  unfoldable pub query_by_metric :
      String → F → String → JsonHistoryStore → Loaded (List (Identified (EvaluationRecord F)))
  unfolding load_all_records
  query_by_metric uuid4 now name s = do
    rs ← load_all_records uuid4 now s
    loaded (keep (λ r. has_metric name r.content.metrics) rs)
