-- ===== src/Stored/Runs.antt =====
-- ingestion/run_schema.py: `RAGRun.to_dict` and `from_dict`. An array is the list of its numbers.
use post_rag_drift_evaluator.Prelude.{
  String, Option, none, some, List, [], ◌∷◌, map, ◌≡◌, refl, if◌then◌else◌,
}
use post_rag_drift_evaluator.Dict.{Dict, get}
use post_rag_drift_evaluator.Value.{Value, nothing, num, text, items, dict_of, entries, fields_of}
use post_rag_drift_evaluator.Result.{type_error}
use post_rag_drift_evaluator.Ingestion.RunSchema.{RagRun, RagSystemInfo, init_run}
use post_rag_drift_evaluator.Stored.Readers.{
  Loaded, loaded, raised, ◌>>=◌, as_text, as_num, as_dict, as_list, as_optional, load_or, texts,
  optional_text, optional_list, items_of, load_all, entries-fields_of, load_all-map, load_all-texts,
  optional_round_trip, optional_list_round_trip,
}
use post_rag_drift_evaluator.Stored.Metrics.{only_keys, argument}

module _ {F : Type 0} where
  abbrev numbers : List F → Value F
  numbers xs = items (items_of (map num xs))

  numbers_round_trip : (xs : List F) → as_list as_num (numbers xs) ≡ loaded xs
  numbers_round_trip xs = load_all-map as_num num (λ x. refl) xs

  abbrev pub info_value : RagSystemInfo → Value F
  info_value i = dict_of (
      ("name", text i.name)
      ∷ ("model", optional_text i.model)
      ∷ ("embedding_model", optional_text i.embedding_model)
      ∷ ("retriever", optional_text i.retriever)
      ∷ ("version", optional_text i.version)
      ∷ [])

  abbrev optional_info : Option RagSystemInfo → Value F
  optional_info none = nothing
  optional_info (some i) = info_value i

  abbrev optional_time : Option F → Value F
  optional_time none = nothing
  optional_time (some t) = num t

  unfoldable pub dict_of_run : RagRun F → Dict (Value F)
  unfolding items_of
  dict_of_run r =
      ("schema_version", text r.schema_version)
      ∷ ("run_id", optional_text r.run_id)
      ∷ ("query", text r.query)
      ∷ ("retrieved_docs", texts r.retrieved_docs)
      ∷ ("retrieved_doc_ids", optional_list text r.retrieved_doc_ids)
      ∷ ("retrieved_embeddings", optional_list numbers r.retrieved_embeddings)
      ∷ ("query_embedding", optional_list num r.query_embedding)
      ∷ ("answer", optional_text r.answer)
      ∷ ("answer_embedding", optional_list num r.answer_embedding)
      ∷ ("system_info", optional_info r.system_info)
      ∷ ("metadata", dict_of r.metadata)
      ∷ ("timestamp", optional_time r.timestamp)
      ∷ ("system_version", optional_text r.system_version)
      ∷ []

  abbrev text_field : String → Dict (Value F) → Loaded (Option String)
  text_field = load_or (as_optional as_text) none

  -- `RAGSystemInfo(**value)`
  info_of_dict : Dict (Value F) → Loaded RagSystemInfo
  unfolding get only_keys argument
  info_of_dict d =
      if only_keys ("name" ∷ "model" ∷ "embedding_model" ∷ "retriever" ∷ "version" ∷ []) d
      then (do
        name ← argument as_text "name" d
        model ← text_field "model" d
        embedding_model ← text_field "embedding_model" d
        retriever ← text_field "retriever" d
        version ← text_field "version" d
        loaded (record {
          name = name;
          model = model;
          embedding_model = embedding_model;
          retriever = retriever;
          version = version;
        }))
      else raised type_error

  abbrev info_of_value : Value F → Loaded RagSystemInfo
  info_of_value v = do d ← as_dict v; info_of_dict d

  unfoldable pub run_of_dict : String → F → Dict (Value F) → Loaded (RagRun F)
  unfolding get load_all info_of_dict init_run
  run_of_dict uuid4 now d = do
    schema_version ← load_or as_text "1.0" "schema_version" d
    run_id ← text_field "run_id" d
    query ← load_or as_text "" "query" d
    docs ← load_or (as_list as_text) [] "retrieved_docs" d
    doc_ids ← load_or (as_optional (as_list as_text)) none "retrieved_doc_ids" d
    answer ← text_field "answer" d
    info ← load_or (as_optional info_of_value) none "system_info" d
    metadata ← load_or as_dict [] "metadata" d
    timestamp ← load_or (as_optional as_num) none "timestamp" d
    system_version ← text_field "system_version" d
    embeddings ← load_or (as_optional (as_list (as_list as_num))) none "retrieved_embeddings" d
    query_embedding ← load_or (as_optional (as_list as_num)) none "query_embedding" d
    answer_embedding ← load_or (as_optional (as_list as_num)) none "answer_embedding" d
    loaded (
        init_run uuid4 now (record {
          schema_version = schema_version;
          run_id = run_id;
          query = query;
          retrieved_docs = docs;
          retrieved_doc_ids = doc_ids;
          retrieved_embeddings = embeddings;
          query_embedding = query_embedding;
          answer = answer;
          answer_embedding = answer_embedding;
          system_info = info;
          metadata = metadata;
          timestamp = timestamp;
          system_version = system_version;
        }))

info_round_trip :
    (F : Type 0) (o : Option RagSystemInfo)
    → as_optional (info_of_value {F = F}) (optional_info o) ≡ loaded o
unfolding info_of_dict entries fields_of
info_round_trip F none = refl
info_round_trip F (some i) =
    rw
      (
        optional_round_trip F i.model,
        optional_round_trip F i.embedding_model,
        optional_round_trip F i.retriever,
        optional_round_trip F i.version,
      )
      refl

module _ {F : Type 0} where
  -- Reading what `to_dict` of an initialised run wrote gives the run back, with its embeddings, its
  -- system and its identifier, whatever identifier and time the reader would draw.
  pub run_of_dict-dict_of_run :
      (uuid4 uuid4' : String) (now now' : F) (r : RagRun F)
      → run_of_dict uuid4' now' (dict_of_run (init_run uuid4 now r)) ≡ loaded (init_run uuid4 now r)
  unfolding run_of_dict dict_of_run
  run_of_dict-dict_of_run uuid4 uuid4' now now' r =
      rw
        (
          load_all-texts F r.retrieved_docs,
          optional_list_round_trip as_text text (λ s. refl) r.retrieved_doc_ids,
          optional_round_trip F r.answer,
          info_round_trip F r.system_info,
          entries-fields_of r.metadata,
          optional_round_trip F r.system_version,
          optional_list_round_trip (as_list as_num) numbers numbers_round_trip
              r.retrieved_embeddings,
          optional_list_round_trip as_num num (λ x. refl) r.query_embedding,
          optional_list_round_trip as_num num (λ x. refl) r.answer_embedding,
        )
        refl
