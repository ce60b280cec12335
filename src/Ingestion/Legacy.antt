-- ===== src/Ingestion/Legacy.antt =====
-- The legacy answer of a pipeline, its run and its frame (evaluator/rag_pipelines/base.py,
-- `from_legacy_rag_response` of evaluator/schemas/telemetry.py).
pub mod RoundTrip
use post_rag_drift_evaluator.Prelude.{
  String, Option, none, some, List, [], ◌∷◌, ◌≡◌, refl, str_eq, if◌then◌else◌,
}
use post_rag_drift_evaluator.Float.{Float}
use post_rag_drift_evaluator.Dict.{Dict, get, get_or, has, put, remove}
use post_rag_drift_evaluator.Value.{Value, num, text}
use post_rag_drift_evaluator.Telemetry.{RagEvaluationFrame}
use post_rag_drift_evaluator.Stored.Readers.{Loaded, loaded, untyped, ◌>>=◌}
use post_rag_drift_evaluator.Stored.Runs.{info_value}
use post_rag_drift_evaluator.Ingestion.RunSchema.{RagRun, RagSystemInfo, init_run, truthy, or_given}

pub record RagResponse (F : Type 0) : Type 0 where
  pub query : String
  pub retrieved_contexts : List String
  pub generated_answer : String
  pub query_embedding : List F
  pub reflection_iterations : F
  pub final_confidence : F
  pub metadata : Dict (Value F)

-- What pydantic makes of a value in a field of type `int` and in one of type `float`.
pub record Validators (F : Type 0) : Type 0 where
  pub count : Value F → Loaded F
  pub score : Value F → Loaded F

module _ {F : Type 0} ⦃fl : Float F⦄ where
  open fl use {decimal, feq}

  -- `value or fallback`, where a text is expected.
  abbrev text_or : String → Option (Value F) → Loaded String
  text_or fallback none = loaded fallback
  text_or fallback (some (text s)) = if str_eq s "" then loaded fallback else loaded s
  text_or fallback (some v) = if truthy v then untyped else loaded fallback

  abbrev pipeline_info : Dict (Value F) → Loaded (Option RagSystemInfo)
  unfolding get has
  pipeline_info d =
      if has "pipeline_name" d
      then (do
        name ← text_or "" (get "pipeline_name" d)
        model ← text_or "" (get "model" d)
        embedding_model ← text_or "default" (get "embedding_model" d)
        retriever ← text_or "default" (get "retriever" d)
        version ← text_or "0.0.0" (get "version" d)
        loaded (
            some (record {
              name = name;
              model = some model;
              embedding_model = some embedding_model;
              retriever = some retriever;
              version = some version;
            })))
      else loaded none

  abbrev pub given_vector : List F → Option (List F)
  given_vector [] = none
  given_vector (x ∷ xs) = some (x ∷ xs)

  unfoldable pub run_with : String → F → RagResponse F → Option RagSystemInfo → RagRun F
  unfolding init_run put
  run_with uuid4 now s info = init_run uuid4 now (record {
    schema_version = "1.0";
    run_id = none;
    query = s.query;
    retrieved_docs = s.retrieved_contexts;
    retrieved_doc_ids = none;
    retrieved_embeddings = none;
    query_embedding = given_vector s.query_embedding;
    answer = some s.generated_answer;
    answer_embedding = none;
    system_info = info;
    metadata =
        put "final_confidence" (num s.final_confidence)
          (put "reflection_iterations" (num s.reflection_iterations) s.metadata);
    timestamp = none;
    system_version = none;
  })

  unfoldable pub to_ragrun : String → F → RagResponse F → Loaded (RagRun F)
  unfolding get has run_with
  to_ragrun uuid4 now s = do info ← pipeline_info s.metadata; loaded (run_with uuid4 now s info)

  unfoldable pub set_default : String → Value F → Dict (Value F) → Dict (Value F)
  unfolding has put get
  set_default k v d = if has k d then d else put k v d

  unfoldable pub put_given {ℓ} :
      {A : Type ℓ} → (A → Value F) → String → Option A → Dict (Value F) → Dict (Value F)
  unfolding put
  put_given f k none d = d
  put_given f k (some a) d = put k (f a) d

  unfoldable pub folded : RagRun F → Dict (Value F)
  unfolding set_default put_given put
  folded run = put_given info_value "system_info" run.system_info (
      put_given num "timestamp" run.timestamp (
        put "schema_version" (text run.schema_version) (
          put_given text "run_id" run.run_id (
            set_default "final_confidence" (num (decimal 0 0))
              (set_default "reflection_iterations" (num (decimal 0 0)) run.metadata)))))

  unfoldable pub from_ragrun : Validators F → RagRun F → Loaded (RagResponse F)
  unfolding folded get remove
  from_ragrun c run =
      let d = folded run in
      let zero_value = num (decimal 0 0) in
      (do
        reflections ← c.count (get_or "reflection_iterations" zero_value d)
        confidence ← c.score (get_or "final_confidence" zero_value d)
        loaded (record {
          query = run.query;
          retrieved_contexts = run.retrieved_docs;
          generated_answer = or_given run.answer "";
          query_embedding = or_given run.query_embedding [];
          reflection_iterations = reflections;
          final_confidence = confidence;
          metadata = remove "final_confidence" (remove "reflection_iterations" d);
        }))

  -- The frame is a new one, with the trace and the time that it draws.
  unfoldable pub from_legacy_rag_response :
      String → F → String → RagResponse F → RagEvaluationFrame F
  from_legacy_rag_response uuid4 now rag_type s = record {
    trace_id = uuid4;
    timestamp = now;
    query = record { text = s.query; embedding = some s.query_embedding };
    context = record {
      text_chunks = s.retrieved_contexts;
      dense_embeddings = none;
      graph_topology = none;
    };
    metadata = record {
      rag_type = rag_type;
      agent_hops = none;
      reflection_iterations = s.reflection_iterations;
      latency_ms = none;
      extra = s.metadata;
    };
    output = record {
      generated_answer = s.generated_answer;
      response_embedding = none;
      confidence_score =
          if feq s.final_confidence (decimal 0 0) then none else some s.final_confidence;
    };
  }
