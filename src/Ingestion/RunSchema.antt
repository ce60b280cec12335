-- ===== src/Ingestion/RunSchema.antt =====
-- ingestion/run_schema.py: `RAGRun`, its validation and its frame of telemetry. `str` methods, the
-- conversions `int` and `float`, and what pydantic makes of two fields are a parameter.
use post_rag_drift_evaluator.Prelude.{
  ℕ, String, Bool, true, false, not, ◌||◌, Option, none, some, List, [], ◌∷◌, length, str_eq, ◌==◌,
  if◌then◌else◌,
}
use post_rag_drift_evaluator.Float.{Float}
use post_rag_drift_evaluator.Result.{Result, ok, err, value_error, ◌>>=◌}
use post_rag_drift_evaluator.Dict.{Dict, get, get_or}
use post_rag_drift_evaluator.Value.{
  Value, nothing, flag, num, text, items, dict, nil, cons, end, field, merge,
}
use post_rag_drift_evaluator.Telemetry.{RagEvaluationFrame}

pub record RagSystemInfo : Type 0 where
  pub name : String
  pub model : Option String
  pub embedding_model : Option String
  pub retriever : Option String
  pub version : Option String

pub record RagRun (F : Type 0) : Type 0 where
  pub schema_version : String
  pub run_id : Option String
  pub query : String
  pub retrieved_docs : List String
  pub retrieved_doc_ids : Option (List String)
  pub retrieved_embeddings : Option (List (List F))
  pub query_embedding : Option (List F)
  pub answer : Option String
  pub answer_embedding : Option (List F)
  pub system_info : Option RagSystemInfo
  pub metadata : Dict (Value F)
  pub timestamp : Option F
  pub system_version : Option String

-- Calls of Python and pydantic.
pub record Conversions (F : Type 0) : Type 0 where
  pub strip : String → String
  -- `name.lower().removesuffix("rag")`
  pub base_name : String → String
  pub to_int : Value F → Result F
  pub to_float : Value F → Result F
  -- the fields `agent_hops` and `latency_ms` of the frame's metadata
  pub hops : Option (Value F) → Result (Option (List String))
  pub latency : Option (Value F) → Result (Option F)

abbrev pub or_given {ℓ} : {A : Type ℓ} → Option A → A → A
or_given none a = a
or_given (some b) a = b

abbrev differs {ℓ} : {A : Type ℓ} → Option (List A) → ℕ → Bool
differs none n = false
differs (some xs) n = not (length xs == n)

module _ {F : Type 0} where
  unfoldable pub init_run : String → F → RagRun F → RagRun F
  init_run uuid4 now r = record r {
    run_id = some (or_given r.run_id uuid4);
    timestamp = some (or_given r.timestamp now);
  }

  -- `validate`: whether it returns.
  unfoldable pub validate : Conversions F → RagRun F → Result (RagRun F)
  validate c r =
      if str_eq r.query "" || str_eq (c.strip r.query) ""
      then err value_error
      else if length r.retrieved_docs == 0
      then err value_error
      else if differs r.retrieved_doc_ids (length r.retrieved_docs)
      then err value_error
      else if differs r.retrieved_embeddings (length r.retrieved_docs)
      then err value_error
      else ok r

-- `_RAG_TYPE_MAP.get(name, "custom")`
unfoldable pub rag_type_of : String → String
rag_type_of name =
    if str_eq name "naive"
    then "naive"
    else if str_eq name "agentic"
    then "agentic"
    else if str_eq name "graph"
    then "graph_rag"
    else if str_eq name "swarm"
    then "swarm"
    else "custom"

abbrev name_of : Option RagSystemInfo → String
name_of none = ""
name_of (some info) = info.name

abbrev trace_of : String → Option String → String
trace_of uuid4 none = uuid4
trace_of uuid4 (some id) = if str_eq id "" then uuid4 else id

module _ {F : Type 0} ⦃fl : Float F⦄ where
  open fl use {decimal, feq}

  -- `bool(value)`
  abbrev pub truthy : Value F → Bool
  truthy nothing = false
  truthy (flag b) = b
  truthy (num x) = not (feq x (decimal 0 0))
  truthy (text s) = not (str_eq s "")
  truthy (items nil) = false
  truthy (items (cons v vs)) = true
  truthy (dict end) = false
  truthy (dict (field k v fs)) = true

  -- `int(value or 0)`
  abbrev pub int_or_zero : Conversions F → Option (Value F) → Result F
  int_or_zero c none = ok (decimal 0 0)
  int_or_zero c (some v) = if truthy v then c.to_int v else ok (decimal 0 0)

  -- `float(value) if value else None`
  abbrev pub confidence : Conversions F → Option (Value F) → Result (Option F)
  confidence c none = ok none
  confidence c (some v) = if truthy v then (do x ← c.to_float v; ok (some x)) else ok none

  abbrev score_entries : Dict F → Dict (Value F)
  score_entries [] = []
  score_entries ((k, x) ∷ d) = (k, num x) ∷ score_entries d

  unfoldable pub to_evaluation_frame :
      Conversions F → String → F → Dict F → RagRun F → Result (RagEvaluationFrame F)
  unfolding rag_type_of get merge
  to_evaluation_frame c uuid4 now scores r = do
    reflections ← int_or_zero c (get "reflection_iterations" r.metadata)
    hops ← c.hops (get "agent_hops" r.metadata)
    latency ← c.latency (get "latency_ms" r.metadata)
    confidence_score ← confidence c (get "final_confidence" r.metadata)
    ok (record {
      trace_id = trace_of uuid4 r.run_id;
      timestamp = or_given r.timestamp now;
      query = record { text = r.query; embedding = r.query_embedding };
      context = record {
        text_chunks = r.retrieved_docs;
        dense_embeddings = r.retrieved_embeddings;
        graph_topology = none;
      };
      metadata = record {
        rag_type = rag_type_of (c.base_name (name_of r.system_info));
        agent_hops = hops;
        reflection_iterations = reflections;
        latency_ms = latency;
        extra =
            merge (score_entries scores)
              (("token_usage", get_or "token_usage" (dict end) r.metadata) ∷ []);
      };
      output = record {
        generated_answer = or_given r.answer "";
        response_embedding = r.answer_embedding;
        confidence_score = confidence_score;
      };
    })
