-- ===== src/Telemetry.antt =====
-- evaluator/schemas/telemetry.py: the frames of telemetry. A timestamp is the number that it stands
-- for, and the `extra="allow"` fields are left out.
use post_rag_drift_evaluator.Prelude.{String, Option, List}
use post_rag_drift_evaluator.Dict.{Dict}
use post_rag_drift_evaluator.Value.{Value}

pub record GraphTopology (F : Type 0) : Type 0 where
  pub nodes : List (Dict (Value F))
  pub edges : List (Dict (Value F))

pub record Query (F : Type 0) : Type 0 where
  pub text : String
  pub embedding : Option (List F)

pub record RetrievalContext (F : Type 0) : Type 0 where
  pub text_chunks : List String
  pub dense_embeddings : Option (List (List F))
  pub graph_topology : Option (GraphTopology F)

pub record ExecutionMetadata (F : Type 0) : Type 0 where
  pub rag_type : String
  pub agent_hops : Option (List String)
  -- an `int`
  pub reflection_iterations : F
  pub latency_ms : Option F
  pub extra : Dict (Value F)

pub record Output (F : Type 0) : Type 0 where
  pub generated_answer : String
  pub response_embedding : Option (List F)
  pub confidence_score : Option F

pub record RagEvaluationFrame (F : Type 0) : Type 0 where
  pub trace_id : String
  pub timestamp : F
  pub query : Query F
  pub context : RetrievalContext F
  pub metadata : ExecutionMetadata F
  pub output : Output F
