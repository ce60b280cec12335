-- ===== src/Stored/Metrics.antt =====
-- evaluator/metrics/results.py: `MetricResult.to_dict` and `from_dict`, which dispatches on the
-- class name under "_type".
use post_rag_drift_evaluator.Prelude.{
  String, Bool, true, false, ◌&&◌, ◌||◌, Option, none, some, List, [], ◌∷◌, ◌++◌, ◌≡◌, refl, str_eq,
  if◌then◌else◌,
}
use post_rag_drift_evaluator.Dict.{Dict, get, remove}
use post_rag_drift_evaluator.Value.{Value, num, text, dict_of}
use post_rag_drift_evaluator.Result.{type_error}
use post_rag_drift_evaluator.Models.Records.{MetricKind, plain, drift, quality, MetricResult}
use post_rag_drift_evaluator.Stored.Readers.{
  Loaded, loaded, raised, ◌>>=◌, as_text, as_num, as_dict, as_optional, load_or, optional_text,
  entries-fields_of,
}

-- `Cls(**data)` accepts the names of its fields only.
listed : String → List String → Bool
listed k [] = false
listed k (j ∷ js) = str_eq j k || listed k js

abbrev class_name : MetricKind → String
class_name plain = "MetricResult"
class_name (drift _ _) = "DriftResult"
class_name (quality _) = "QualityResult"

module _ {F : Type 0} where
  unfoldable pub only_keys : List String → Dict (Value F) → Bool
  unfolding listed
  only_keys names [] = true
  only_keys names ((k, v) ∷ d) = listed k names && only_keys names d

  abbrev kind_fields : MetricKind → Dict (Value F)
  kind_fields plain = []
  kind_fields (drift baseline current) =
      ("baseline_run_id", optional_text baseline) ∷ ("current_run_id", optional_text current) ∷ []
  kind_fields (quality run) = ("run_id", optional_text run) ∷ []

  unfoldable pub dict_of_metric : MetricResult F → Dict (Value F)
  dict_of_metric m =
      ("metric_name", text m.metric_name)
      ∷ ("value", num m.value)
      ∷ ("metadata", dict_of m.metadata)
      ∷ (kind_fields m.kind ++ (("_type", text (class_name m.kind)) ∷ []))

  -- A field of the class, `None` if it is not given.
  optional_run : String → Dict (Value F) → Loaded (Option String)
  unfolding get
  optional_run = load_or (as_optional as_text) none

  -- A missing argument is a TypeError, where `data[key]` is a KeyError.
  unfoldable pub argument : {A : Type 0} → (Value F → Loaded A) → String → Dict (Value F) → Loaded A
  unfolding get
  argument f k d = elim (get k d) [ none ↦ raised type_error | some v ↦ f v ]

  -- `Cls(**data)` for the class with these further fields.
  construct :
      List String → (Dict (Value F) → Loaded MetricKind) → Dict (Value F) → Loaded (MetricResult F)
  unfolding only_keys argument
  construct names kind fields =
      if only_keys ("metric_name" ∷ "value" ∷ "metadata" ∷ names) fields
      then (do
        name ← argument as_text "metric_name" fields
        value ← argument as_num "value" fields
        metadata ← load_or as_dict [] "metadata" fields
        k ← kind fields
        loaded (record { metric_name = name; value = value; metadata = metadata; kind = k }))
      else raised type_error

  drift_kind : Dict (Value F) → Loaded MetricKind
  unfolding optional_run
  drift_kind fields = do
    baseline ← optional_run "baseline_run_id" fields
    current ← optional_run "current_run_id" fields
    loaded (drift baseline current)

  quality_kind : Dict (Value F) → Loaded MetricKind
  unfolding optional_run
  quality_kind fields = do run ← optional_run "run_id" fields; loaded (quality run)

  is_type : String → Option (Value F) → Bool
  is_type name (some (text s)) = str_eq s name
  is_type name _ = false

  -- `MetricResult.from_dict`
  unfoldable pub metric_of_dict : Dict (Value F) → Loaded (MetricResult F)
  unfolding get remove is_type construct drift_kind quality_kind
  metric_of_dict fields =
      let type_name = get "_type" fields in
      let rest = remove "_type" fields in
      if is_type "DriftResult" type_name
      then construct ("baseline_run_id" ∷ "current_run_id" ∷ []) drift_kind rest
      else if is_type "QualityResult" type_name
      then construct ("run_id" ∷ []) quality_kind rest
      else construct [] (λ d. loaded plain) rest

  with_kind :
      (k : MetricKind) (m : MetricResult F)
      → let n = record m { kind = k } in metric_of_dict (dict_of_metric n) ≡ loaded n
  unfolding metric_of_dict dict_of_metric
  with_kind plain m = rw (entries-fields_of m.metadata) refl
  with_kind (drift none none) m = rw (entries-fields_of m.metadata) refl
  with_kind (drift none (some c)) m = rw (entries-fields_of m.metadata) refl
  with_kind (drift (some b) none) m = rw (entries-fields_of m.metadata) refl
  with_kind (drift (some b) (some c)) m = rw (entries-fields_of m.metadata) refl
  with_kind (quality none) m = rw (entries-fields_of m.metadata) refl
  with_kind (quality (some r)) m = rw (entries-fields_of m.metadata) refl

  -- Reading what `to_dict` of a metric wrote gives the metric back, of the same class.
  pub metric_of_dict-dict_of_metric :
      (m : MetricResult F) → metric_of_dict (dict_of_metric m) ≡ loaded m
  metric_of_dict-dict_of_metric m = with_kind m.kind m
