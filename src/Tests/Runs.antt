-- ===== src/Tests/Runs.antt =====
-- Runs and the frames that they become, at concrete inputs.
use post_rag_drift_evaluator.Prelude.{Option, String, ◌≡◌, refl, none, some, [], ◌∷◌, arith}
use post_rag_drift_evaluator.Float.Milli.{Milli, pos, milli}
use post_rag_drift_evaluator.Result.{ok, err, value_error}
use post_rag_drift_evaluator.Dict.{put}
use post_rag_drift_evaluator.Value.{num, text, dict, end}
use post_rag_drift_evaluator.Stored.Readers.{loaded, as_num}
use post_rag_drift_evaluator.Stored.Runs.{dict_of_run, run_of_dict, run_of_dict-dict_of_run}
use post_rag_drift_evaluator.Ingestion.RunSchema.{
  RagRun, RagSystemInfo, Conversions, init_run, validate, to_evaluation_frame,
}
use post_rag_drift_evaluator.Ingestion.Legacy.{
  RagResponse, Validators, run_with, from_ragrun, from_legacy_rag_response,
}
use post_rag_drift_evaluator.Ingestion.Legacy.RoundTrip.{IsSameAnswer, from_ragrun-run_with}
use post_rag_drift_evaluator.Telemetry.{RagEvaluationFrame}
use post_rag_drift_evaluator.Drift.Monitor.Evaluation.{evaluate_vector_drift}
use post_rag_drift_evaluator.Drift.Monitor.Runs.{
  IsFrameOf, IsFilled, evaluate_vector_drift_between_runs, evaluate_vector_drift_between_runs-eq,
}
use post_rag_drift_evaluator.Tests.Drift.{kernels, monitor}

-- `str` methods that leave the text alone, and no hops or latency.
abbrev conversions : Conversions Milli
conversions = record {
  strip = λ s. s;
  base_name = λ s. s;
  to_int = λ v. ok (pos 1000);
  to_float = λ v. ok (pos 900);
  hops = λ v. ok none;
  latency = λ v. ok none;
}

abbrev run_of : String → Milli → RagRun Milli
run_of id x = record {
  schema_version = "1.0";
  run_id = some id;
  query = "q";
  retrieved_docs = "d" ∷ [];
  retrieved_doc_ids = none;
  retrieved_embeddings = some ((x ∷ []) ∷ []);
  query_embedding = none;
  answer = some "a";
  answer_embedding = none;
  system_info = some (record {
    name = "swarm";
    model = some "m";
    embedding_model = none;
    retriever = none;
    version = none;
  });
  metadata = ("reflection_iterations", num (pos 1000)) ∷ [];
  timestamp = some (pos 7);
  system_version = none;
}

abbrev frame_of_run : String → Milli → RagEvaluationFrame Milli
frame_of_run id x = record {
  trace_id = id;
  timestamp = pos 7;
  query = record { text = "q"; embedding = none };
  context = record {
    text_chunks = "d" ∷ [];
    dense_embeddings = some ((x ∷ []) ∷ []);
    graph_topology = none;
  };
  metadata = record {
    rag_type = "swarm";
    agent_hops = none;
    reflection_iterations = pos 1000;
    latency_ms = none;
    extra = ("token_usage", dict end) ∷ [];
  };
  output = record { generated_answer = "a"; response_embedding = none; confidence_score = none };
}

old-IsFrameOf : IsFrameOf conversions (run_of "old" (pos 100)) (frame_of_run "old" (pos 100))
unfolding to_evaluation_frame milli put
old-IsFrameOf = ("u", pos 0, [], refl)

new-IsFrameOf : IsFrameOf conversions (run_of "new" (pos 300)) (frame_of_run "new" (pos 300))
unfolding to_evaluation_frame milli put
new-IsFrameOf = ("u", pos 0, [], refl)

run_of-IsFilled : (id : String) (x : Milli) → IsFilled (run_of id x)
run_of-IsFilled id x = λ e. ground (arith, e)

evaluate_vector_drift_between_runs-eq_example :
    evaluate_vector_drift_between_runs kernels monitor
      (run_of "old" (pos 100) ∷ [])
      (run_of "new" (pos 300) ∷ [])
    ≡ evaluate_vector_drift kernels monitor
        (frame_of_run "old" (pos 100) ∷ [])
        (frame_of_run "new" (pos 300) ∷ [])
evaluate_vector_drift_between_runs-eq_example =
    evaluate_vector_drift_between_runs-eq conversions kernels monitor (run_of "old" (pos 100) ∷ [])
      (run_of "new" (pos 300) ∷ []) (frame_of_run "old" (pos 100) ∷ [])
      (frame_of_run "new" (pos 300) ∷ []) (old-IsFrameOf, tt) (new-IsFrameOf, tt)
      (run_of-IsFilled "old" (pos 100), tt) (run_of-IsFilled "new" (pos 300), tt)

run-read_back :
    run_of_dict "b" (pos 9) (dict_of_run (init_run "a" (pos 5) (run_of "old" (pos 100))))
    ≡ loaded (init_run "a" (pos 5) (run_of "old" (pos 100)))
run-read_back = run_of_dict-dict_of_run "a" "b" (pos 5) (pos 9) (run_of "old" (pos 100))

-- Identifiers must be as many as the documents.
validate-refuses :
    validate conversions (record (run_of "old" (pos 100)) { retrieved_doc_ids = some [] })
    ≡ err value_error
unfolding validate
validate-refuses = refl

-- A legacy answer that names its pipeline, and pydantic on numbers.
abbrev legacy : RagResponse Milli
legacy = record {
  query = "q";
  retrieved_contexts = "d" ∷ [];
  generated_answer = "a";
  query_embedding = pos 100 ∷ [];
  reflection_iterations = pos 2000;
  final_confidence = pos 900;
  metadata = ("pipeline_name", text "swarm") ∷ [];
}

abbrev validators : Validators Milli
validators = record { count = as_num; score = as_num }

legacy-IsSameAnswer :
    (info : Option RagSystemInfo)
    → IsSameAnswer legacy (from_ragrun validators (run_with "u" (pos 5) legacy info))
legacy-IsSameAnswer info = from_ragrun-run_with validators "u" (pos 5) legacy info refl refl

legacy_frame :
    (from_legacy_rag_response "t" (pos 5) "swarm" legacy).output.confidence_score ≡ some (pos 900)
unfolding from_legacy_rag_response milli
legacy_frame = refl
