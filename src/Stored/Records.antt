-- ===== src/Stored/Records.antt =====
-- evaluator/storage/models.py and evaluator/temporal/models.py: `EvaluationRecord` and `DriftEvent`
-- as dictionaries. An identifier that is not given is drawn by `__post_init__`, an argument here.
use post_rag_drift_evaluator.Prelude.{String, Option, none, some, [], ◌∷◌, map, ◌≡◌, refl}
use post_rag_drift_evaluator.Dict.{Dict, get}
use post_rag_drift_evaluator.Value.{Value, nothing, num, text, items, dict_of}
use post_rag_drift_evaluator.Models.Records.{EvaluationRecord, DriftEvent, MetricResult}
use post_rag_drift_evaluator.Stored.Readers.{
  Loaded, loaded, ◌>>=◌, as_text, as_num, as_dict, as_list, as_optional, load, load_or, texts,
  optional_text, items_of, load_all, entries-fields_of, load_all-map, load_all-texts,
  optional_round_trip,
}
use post_rag_drift_evaluator.Stored.Metrics.{
  dict_of_metric, metric_of_dict, metric_of_dict-dict_of_metric,
}

-- A record with its `record_id`, which is `None` before `__post_init__`.
pub record Identified (A : Type 0) : Type 0 where
  pub record_id : Option String
  pub content : A

abbrev given : {A : Type 0} → Option A → A → A
given none a = a
given (some b) a = b

module _ {F : Type 0} where
  -- `EvaluationRecord.__post_init__`, at an identifier and a time.
  unfoldable pub post_init :
      String → F → Identified (EvaluationRecord F) → Identified (EvaluationRecord F)
  post_init uuid4 now r = record {
    record_id = some (given r.record_id uuid4);
    content = record r.content { timestamp = some (given r.content.timestamp now) };
  }

  abbrev optional_num : Option F → Value F
  optional_num none = nothing
  optional_num (some x) = num x

  metric_value : MetricResult F → Value F
  unfolding dict_of_metric
  metric_value m = dict_of (dict_of_metric m)

  metric_of_value : Value F → Loaded (MetricResult F)
  unfolding metric_of_dict
  metric_of_value v = do d ← as_dict v; metric_of_dict d

  unfoldable pub dict_of_record : Identified (EvaluationRecord F) → Dict (Value F)
  unfolding metric_value items_of
  dict_of_record r =
      ("record_id", optional_text r.record_id)
      ∷ ("run_id", text r.content.run_id)
      ∷ ("timestamp", optional_num r.content.timestamp)
      ∷ ("system_version", optional_text r.content.system_version)
      ∷ ("metrics", items (items_of (map metric_value r.content.metrics)))
      ∷ ("metadata", dict_of r.content.metadata)
      ∷ []

  unfoldable pub record_of_dict :
      String → F → Dict (Value F) → Loaded (Identified (EvaluationRecord F))
  unfolding get load_all metric_of_value post_init
  record_of_dict uuid4 now d = do
    metrics ← load_or (as_list metric_of_value) [] "metrics" d
    record_id ← load_or (as_optional as_text) none "record_id" d
    run_id ← load_or as_text "" "run_id" d
    timestamp ← load_or (as_optional as_num) none "timestamp" d
    system_version ← load_or (as_optional as_text) none "system_version" d
    metadata ← load_or as_dict [] "metadata" d
    loaded (
        post_init uuid4 now (record {
          record_id = record_id;
          content = record {
            run_id = run_id;
            metrics = metrics;
            metadata = metadata;
            system_version = system_version;
            timestamp = timestamp;
          };
        }))

  metric_round_trip : (m : MetricResult F) → metric_of_value (metric_value m) ≡ loaded m
  unfolding metric_of_value metric_value
  metric_round_trip m = rw (entries-fields_of (dict_of_metric m)) (metric_of_dict-dict_of_metric m)

  -- Reading what `to_dict` of an initialised record wrote gives the record back, with its
  -- metrics, its identifier and its time, whatever identifier and time the reader would draw.
  pub record_of_dict-dict_of_record :
      (uuid4 uuid4' : String) (now now' : F) (r : Identified (EvaluationRecord F))
      → record_of_dict uuid4' now' (dict_of_record (post_init uuid4 now r))
        ≡ loaded (post_init uuid4 now r)
  unfolding record_of_dict dict_of_record
  record_of_dict-dict_of_record uuid4 uuid4' now now' r =
      rw
        (
          load_all-map metric_of_value metric_value metric_round_trip r.content.metrics,
          optional_round_trip F r.content.system_version,
          entries-fields_of r.content.metadata,
        )
        refl

  unfoldable pub dict_of_event : DriftEvent F → Dict (Value F)
  unfolding items_of
  dict_of_event e =
      ("event_id", text e.event_id)
      ∷ ("metric_name", text e.metric_name)
      ∷ ("start_timestamp", num e.start_timestamp)
      ∷ ("end_timestamp", num e.end_timestamp)
      ∷ ("magnitude", num e.magnitude)
      ∷ ("involved_run_ids", texts e.involved_run_ids)
      ∷ ("metadata", dict_of e.metadata)
      ∷ []

  unfoldable pub event_of_dict : String → Dict (Value F) → Loaded (DriftEvent F)
  unfolding get load_all
  event_of_dict uuid4 d = do
    event_id ← load_or (as_optional as_text) none "event_id" d
    metric_name ← load as_text "metric_name" d
    start ← load as_num "start_timestamp" d
    end ← load as_num "end_timestamp" d
    magnitude ← load as_num "magnitude" d
    runs ← load_or (as_list as_text) [] "involved_run_ids" d
    metadata ← load_or as_dict [] "metadata" d
    loaded (record {
      metric_name = metric_name;
      start_timestamp = start;
      end_timestamp = end;
      magnitude = magnitude;
      involved_run_ids = runs;
      metadata = metadata;
      event_id = given event_id uuid4;
    })

  -- Reading what `to_dict` of a drift event wrote gives the event back, with its identifier.
  pub event_of_dict-dict_of_event :
      (uuid4 : String) (e : DriftEvent F) → event_of_dict uuid4 (dict_of_event e) ≡ loaded e
  unfolding event_of_dict dict_of_event
  event_of_dict-dict_of_event uuid4 e =
      rw (load_all-texts F e.involved_run_ids, entries-fields_of e.metadata) refl
