-- ===== src/Stored/Causes.antt =====
-- evaluator/causal/models.py: `ChangeEvent`, `CausalFactor` and `CausalAttribution` as
-- dictionaries. `uuid5` is an argument; an `attribution_id` is `None` until `__post_init__` draws
-- one, and stands beside the attribution.
use post_rag_drift_evaluator.Prelude.{String, concat, Option, none, some, [], ◌∷◌, map, ◌≡◌, refl}
use post_rag_drift_evaluator.Float.{Float}
use post_rag_drift_evaluator.Dict.{Dict, get}
use post_rag_drift_evaluator.Value.{Value, num, text, items, dict_of, entries, fields_of}
use post_rag_drift_evaluator.Models.Events.{ChangeEvent, CausalFactor, CausalAttribution}
use post_rag_drift_evaluator.Stored.Readers.{
  Loaded, loaded, ◌>>=◌, as_text, as_num, as_dict, as_list, as_optional, load, load_or, texts,
  optional_text, items_of, load_all, entries-fields_of, load_all-map, load_all-texts,
  optional_round_trip,
}

module _ {F : Type 0} ⦃fl : Float F⦄ where
  unfoldable pub dict_of_change : ChangeEvent F → Dict (Value F)
  dict_of_change e =
      ("change_id", text e.change_id)
      ∷ ("timestamp", num e.timestamp)
      ∷ ("run_id", text e.run_id)
      ∷ ("change_type", text e.change_type)
      ∷ ("details", dict_of e.details)
      ∷ []

  -- `__post_init__`: without an identifier, the one of the run, the time and the type.
  abbrev identify : (String → String) → Option String → String → F → String → String
  identify uuid5 (some id) run_id timestamp change_type = id
  identify uuid5 none run_id timestamp change_type =
      uuid5 (concat (run_id ∷ ":" ∷ fl.show timestamp ∷ ":" ∷ change_type ∷ []))

  unfoldable pub change_of_dict : (String → String) → Dict (Value F) → Loaded (ChangeEvent F)
  unfolding get
  change_of_dict uuid5 d = do
    change_id ← load_or (as_optional as_text) none "change_id" d
    timestamp ← load_or as_num (fl.decimal 0 0) "timestamp" d
    run_id ← load_or as_text "" "run_id" d
    change_type ← load_or as_text "" "change_type" d
    details ← load_or as_dict [] "details" d
    loaded (record {
      change_id = identify uuid5 change_id run_id timestamp change_type;
      timestamp = timestamp;
      run_id = run_id;
      change_type = change_type;
      details = details;
    })

  pub change_of_dict-dict_of_change :
      (uuid5 : String → String) (e : ChangeEvent F)
      → change_of_dict uuid5 (dict_of_change e) ≡ loaded e
  unfolding change_of_dict dict_of_change
  change_of_dict-dict_of_change uuid5 e = rw (entries-fields_of e.details) refl

  unfoldable pub dict_of_factor : CausalFactor F → Dict (Value F)
  unfolding items_of
  dict_of_factor f =
      ("factor_name", text f.factor_name)
      ∷ ("score", num f.score)
      ∷ ("related_run_ids", texts f.related_run_ids)
      ∷ ("metadata", dict_of f.metadata)
      ∷ []

  unfoldable pub factor_of_dict : Dict (Value F) → Loaded (CausalFactor F)
  unfolding get load_all
  factor_of_dict d = do
    factor_name ← load as_text "factor_name" d
    score ← load as_num "score" d
    runs ← load_or (as_list as_text) [] "related_run_ids" d
    metadata ← load_or as_dict [] "metadata" d
    loaded (record {
      factor_name = factor_name;
      score = score;
      related_run_ids = runs;
      metadata = metadata;
    })

  abbrev factor_value : CausalFactor F → Value F
  factor_value f = dict_of (dict_of_factor f)

  abbrev factor_of_value : Value F → Loaded (CausalFactor F)
  factor_of_value v = do d ← as_dict v; factor_of_dict d

  factor_round_trip : (f : CausalFactor F) → factor_of_value (factor_value f) ≡ loaded f
  unfolding factor_of_dict dict_of_factor entries fields_of
  factor_round_trip f = rw (load_all-texts F f.related_run_ids, entries-fields_of f.metadata) refl

  unfoldable pub dict_of_attribution : Option String → CausalAttribution F → Dict (Value F)
  unfolding dict_of_factor items_of
  dict_of_attribution attribution_id a =
      ("attribution_id", optional_text attribution_id)
      ∷ ("drift_event_id", text a.drift_event_id)
      ∷ ("metric_name", text a.metric_name)
      ∷ ("factors", items (items_of (map factor_value a.factors)))
      ∷ ("confidence", num a.confidence)
      ∷ ("metadata", dict_of a.metadata)
      ∷ []

  unfoldable pub attribution_of_dict : Dict (Value F) → Loaded (Option String × CausalAttribution F)
  unfolding get load_all factor_of_dict
  attribution_of_dict d = do
    attribution_id ← load_or (as_optional as_text) none "attribution_id" d
    drift_event_id ← load as_text "drift_event_id" d
    metric_name ← load as_text "metric_name" d
    factors ← load_or (as_list factor_of_value) [] "factors" d
    confidence ← load_or as_num (fl.decimal 0 0) "confidence" d
    metadata ← load_or as_dict [] "metadata" d
    loaded (
      attribution_id,
      record {
        drift_event_id = drift_event_id;
        metric_name = metric_name;
        factors = factors;
        confidence = confidence;
        metadata = metadata;
      },
    )

  -- Reading what `to_dict` of an attribution wrote gives the attribution back, with its factors in
  -- their order and its identifier.
  pub attribution_of_dict-dict_of_attribution :
      (id : Option String) (a : CausalAttribution F)
      → attribution_of_dict (dict_of_attribution id a) ≡ loaded (id, a)
  unfolding attribution_of_dict dict_of_attribution
  attribution_of_dict-dict_of_attribution id a =
      rw
        (
          load_all-map factor_of_value factor_value factor_round_trip a.factors,
          optional_round_trip F id,
          entries-fields_of a.metadata,
        )
        refl
