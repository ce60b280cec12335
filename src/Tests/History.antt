-- ===== src/Tests/History.antt =====
-- The history file, at concrete records.
use post_rag_drift_evaluator.Prelude.{
  false, String, ◌≡◌, refl, Option, none, some, [], ◌∷◌, ◌++◌, map,
}
use post_rag_drift_evaluator.Float.Milli.{Milli, pos}
use post_rag_drift_evaluator.Dict.{get}
use post_rag_drift_evaluator.Value.{Value, text, entries, fields_of}
use post_rag_drift_evaluator.Stored.Readers.{loaded}
use post_rag_drift_evaluator.Stored.Records.{post_init, dict_of_record, record_of_dict}
use post_rag_drift_evaluator.Stored.History.{
  Json, JsonHistoryStore, load_all_records, query_by_run, query_by_metric,
}
use post_rag_drift_evaluator.Stored.History.Copies.{
  in_memory, append, clone_in_memory, size, is_filled, clone, to_in_memory, clone-to_in_memory,
}
use post_rag_drift_evaluator.Stored.History.Saving.{
  Drawn, initialised, store_of, left_over, save_all, save_all-load_all, IsWritable,
}

-- A record of a run, with its identifier.
abbrev drawn : String → Drawn Milli
drawn run_id = record {
  uuid4 = "id";
  now = pos 5;
  start = record {
    record_id = none;
    content = record {
      run_id = run_id;
      metrics = [];
      metadata = [];
      system_version = none;
      timestamp = none;
    };
  };
}

abbrev name_of_run : Option (Value Milli) → String
name_of_run (some (text s)) = s
name_of_run v = "other"

-- A line is the run's identifier, and reading it builds that run's dictionary.
abbrev by_run : Json Milli
by_run = record {
  dumps = λ d. name_of_run (get "run_id" d);
  loads = λ s. some (dict_of_record (post_init "id" (pos 5) (drawn s).start));
  strip = λ s. s;
}

drawn-IsWritable-old : IsWritable by_run (drawn "old")
unfolding get dict_of_record post_init
drawn-IsWritable-old = record { dumps-not_blank = refl; loads-dumps = refl }

drawn-IsWritable-new : IsWritable by_run (drawn "new")
unfolding get dict_of_record post_init
drawn-IsWritable-new = record { dumps-not_blank = refl; loads-dumps = refl }

all-IsWritable :
    IsWritable by_run (drawn "old")
    × (IsWritable by_run (drawn "old") × (IsWritable by_run (drawn "new") × Unit {0}))
all-IsWritable = (drawn-IsWritable-old, (drawn-IsWritable-old, (drawn-IsWritable-new, tt)))

-- An interrupted call has left a copy of the old record.
save_all-load_all_example :
    load_all_records by_run "u" (pos 9) (
      save_all by_run
        (drawn "new" ∷ [])
        (store_of by_run (drawn "old" ∷ []) (some (drawn "old" ∷ []))))
    ≡ loaded (
        map (initialised by_run) (
          (left_over by_run (some (drawn "old" ∷ [])) ++ (drawn "old" ∷ [])) ++ (drawn "new" ∷ [])))
save_all-load_all_example =
    save_all-load_all by_run "u" (pos 9) (drawn "old" ∷ []) (some (drawn "old" ∷ [])) (drawn "new")
      [] refl all-IsWritable

clone-to_in_memory_example :
    (clone by_run "u"
        (pos 9)
        none
        (store_of by_run (drawn "old" ∷ drawn "new" ∷ []) (some (drawn "old" ∷ [])))
      ≡ loaded (store_of by_run (drawn "old" ∷ drawn "new" ∷ []) none))
    × (to_in_memory by_run "u"
          (pos 9)
          (store_of by_run (drawn "old" ∷ drawn "new" ∷ []) (some (drawn "old" ∷ [])))
        ≡ loaded (in_memory (some (map (initialised by_run) (drawn "old" ∷ drawn "new" ∷ [])))))
clone-to_in_memory_example =
    clone-to_in_memory by_run "u" (pos 9) (drawn "old" ∷ drawn "new" ∷ []) (some (drawn "old" ∷ []))
      refl (drawn-IsWritable-old, (drawn-IsWritable-new, tt))

-- The clone of an empty store, with a record appended to it.
append_to_clone :
    (size (append (initialised by_run (drawn "new")) (clone_in_memory (in_memory none))) ≡ 1)
    × (is_filled {F = Milli} (in_memory none) ≡ false)
unfolding append clone_in_memory
append_to_clone = (refl, refl)

abbrev two_runs : JsonHistoryStore
two_runs = store_of by_run (drawn "old" ∷ drawn "new" ∷ []) none

query_by_run_test :
    query_by_run by_run "u" (pos 9) "new" two_runs ≡ loaded (initialised by_run (drawn "new") ∷ [])
unfolding query_by_run get dict_of_record record_of_dict post_init entries fields_of
query_by_run_test = refl

query_by_metric_test : query_by_metric by_run "u" (pos 9) "jsd" two_runs ≡ loaded []
unfolding query_by_metric get dict_of_record record_of_dict post_init entries fields_of
query_by_metric_test = refl
