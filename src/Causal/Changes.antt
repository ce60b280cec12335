-- ===== src/Causal/Changes.antt =====
-- evaluator/causal/change_extractor.py. The keys of two dictionaries are taken in their order, first
-- one then the other; the source takes them in the order of a set, which no code relies on.
use post_rag_drift_evaluator.Prelude.{
  String, Bool, true, false, not, ◌||◌, Option, none, some, List, [], ◌∷◌, ◌++◌, concat, str_eq,
  keep, if◌then◌else◌, sort_by,
}
use post_rag_drift_evaluator.Float.{Float}
use post_rag_drift_evaluator.Dict.{Dict, get, get_or, put, remove, has, keys}
use post_rag_drift_evaluator.Value.{
  Value, nothing, text, dict, Fields, end, field, entries, value_eq,
}
use post_rag_drift_evaluator.Models.Records.{EvaluationRecord}
use post_rag_drift_evaluator.Models.Events.{ChangeEvent}
use post_rag_drift_evaluator.Temporal.Series.{timestamp_of}

-- The signature of a record; a missing `system_info` or `pipeline_name` reads as `None`.
pub record Signature (F : Type 0) : Type 0 where
  pub system_version : Option String
  pub run_id : String
  pub timestamp : F
  pub metadata : Dict (Value F)
  pub system_info : Value F
  pub pipeline_name : Value F

-- What the comparison has found so far.
pub record Diff (F : Type 0) : Type 0 where
  pub has_change : Bool
  pub change_type : String
  pub details : Dict (Value F)

unfoldable pub same_version : Option String → Option String → Bool
same_version none none = true
same_version (some s) (some t) = str_eq s t
same_version _ _ = false

-- `if change_type == "unknown": change_type = t`
abbrev pub if_unknown : String → String → String
if_unknown t change_type = if str_eq change_type "unknown" then t else change_type

abbrev pub version_value : {F : Type 0} → Option String → Value F
version_value none = nothing
version_value (some s) = text s

module _ {F : Type 0} ⦃fl : Float F⦄ where
  unfoldable pub extract_change_signature : EvaluationRecord F → Signature F
  unfolding timestamp_of get remove
  extract_change_signature r = record {
    system_version = r.system_version;
    run_id = r.run_id;
    timestamp = timestamp_of r;
    metadata = remove "pipeline_name" (remove "system_info" r.metadata);
    system_info = get_or "system_info" nothing r.metadata;
    pipeline_name = get_or "pipeline_name" nothing r.metadata;
  }

  unfoldable pub version_step : Signature F → Signature F → Diff F → Diff F
  unfolding same_version put
  version_step prev curr d =
      if same_version prev.system_version curr.system_version then d else record {
        has_change = true;
        change_type = if_unknown "version_change" d.change_type;
        details =
            put "new_system_version" (version_value curr.system_version)
              (put "old_system_version" (version_value prev.system_version) d.details);
      }

  unfoldable pub pipeline_step : Signature F → Signature F → Diff F → Diff F
  unfolding value_eq put
  pipeline_step prev curr d = if value_eq prev.pipeline_name curr.pipeline_name then d else record {
    has_change = true;
    change_type = if_unknown "model_update" d.change_type;
    details =
        put "new_pipeline" curr.pipeline_name (put "old_pipeline" prev.pipeline_name d.details);
  }

  -- `set(prev) | set(curr)`
  unfoldable pub union_keys : Dict (Value F) → Dict (Value F) → List String
  unfolding keys has
  union_keys prev curr = keys prev ++ keep (λ k. not (has k prev)) (keys curr)

  -- `{key: {"old": prev.get(key), "new": curr.get(key)}}` for the keys that differ.
  unfoldable pub changed_fields : List String → Dict (Value F) → Dict (Value F) → Fields F
  unfolding get value_eq
  changed_fields [] prev curr = end
  changed_fields (k ∷ ks) prev curr =
      let rest = changed_fields ks prev curr in
      let old = get_or k nothing prev in
      let new = get_or k nothing curr in
      if value_eq old new then rest else field k (dict (field "old" old (field "new" new end))) rest

  -- Both infos as dictionaries, if both are.
  unfoldable pub both_dicts : Value F → Value F → Option (Dict (Value F) × Dict (Value F))
  unfolding entries
  both_dicts (dict fs) (dict gs) = some (entries fs, entries gs)
  both_dicts _ _ = none

  unfoldable pub info_step : Signature F → Signature F → Diff F → Diff F
  unfolding value_eq both_dicts union_keys changed_fields put
  info_step prev curr d =
      if value_eq prev.system_info curr.system_info
      then d
      else elim (both_dicts prev.system_info curr.system_info) [
        | none ↦ record d {
          has_change = true;
          details = put "system_info_diff" (dict end) d.details;
        }
        | some (fs, gs) ↦ record {
          has_change = true;
          change_type =
              if str_eq d.change_type "unknown" || str_eq d.change_type "version_change"
              then "model_update"
              else d.change_type;
          details =
              put "system_info_diff" (dict (changed_fields (union_keys fs gs) fs gs)) d.details;
        }
      ]

  unfoldable pub metadata_step : Signature F → Signature F → Diff F → Diff F
  unfolding union_keys changed_fields put
  metadata_step prev curr d =
      elim (changed_fields (union_keys prev.metadata curr.metadata) prev.metadata curr.metadata) [
        | end ↦ d
        | field k v rest ↦ record {
          has_change = true;
          change_type = if_unknown "config_change" d.change_type;
          details = put "metadata_diff" (dict (field k v rest)) d.details;
        }
      ]

  abbrev pub no_change : Diff F
  no_change = record { has_change = false; change_type = "unknown"; details = [] }

  unfoldable pub compare_signatures : Signature F → Signature F → Diff F
  unfolding version_step pipeline_step info_step metadata_step
  compare_signatures prev curr =
      metadata_step prev curr
        (info_step prev curr (pipeline_step prev curr (version_step prev curr no_change)))

  -- `uuid5` is `str(uuid.uuid5(uuid.NAMESPACE_OID, name))`.
  module _ (uuid5 : String → String) where
    unfoldable pub diff_signatures : Signature F → Signature F → Option (ChangeEvent F)
    unfolding compare_signatures
    diff_signatures prev curr =
        let d = compare_signatures prev curr in
        if d.has_change
        then some (record {
          change_id =
              uuid5
                (concat (curr.run_id ∷ ":" ∷ fl.show curr.timestamp ∷ ":" ∷ d.change_type ∷ []));
          timestamp = curr.timestamp;
          run_id = curr.run_id;
          change_type = d.change_type;
          details = d.details;
        })
        else none

    -- The loop over the later records, with the signature of the one before.
    unfoldable pub changes_after : Signature F → List (EvaluationRecord F) → List (ChangeEvent F)
    unfolding extract_change_signature diff_signatures
    changes_after prev [] = []
    changes_after prev (r ∷ records) =
        let curr = extract_change_signature r in
        let rest = changes_after curr records in
        elim (diff_signatures prev curr) [ none ↦ rest | some change ↦ change ∷ rest ]

    unfoldable pub changes_of : List (EvaluationRecord F) → List (ChangeEvent F)
    unfolding changes_after
    changes_of [] = []
    changes_of (r ∷ records) = changes_after (extract_change_signature r) records

    -- `sorted(records, key=lambda r: r.timestamp or 0.0)`
    abbrev pub by_time : List (EvaluationRecord F) → List (EvaluationRecord F)
    by_time = sort_by (λ r s. fl.lt (timestamp_of r) (timestamp_of s))

    -- The argument is `store.load_all()`.
    unfoldable pub extract_change_events : List (EvaluationRecord F) → List (ChangeEvent F)
    unfolding changes_of sort_by
    extract_change_events records = changes_of (by_time records)
