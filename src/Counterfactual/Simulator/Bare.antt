-- ===== src/Counterfactual/Simulator/Bare.antt =====
-- What an intervention leaves of a record.
use post_rag_drift_evaluator.Prelude.{
  String, ◌≡◌, refl, sym, ap, ◌∙◌, none, List, [], ◌∷◌, arith, inl, inr, Bool-cases, Option-cases,
  map, str_eq,
}
use post_rag_drift_evaluator.Result.{Result, ok, Result-cases}
use post_rag_drift_evaluator.Dict.{Dict, get, get_or, put}
use post_rag_drift_evaluator.Value.{Value, dict, end}
use post_rag_drift_evaluator.Models.Records.{EvaluationRecord}
use post_rag_drift_evaluator.Models.Events.{ChangeEvent}
use post_rag_drift_evaluator.Models.Scenarios.{Intervention}
use post_rag_drift_evaluator.Counterfactual.Simulator.{
  revert_version, revert_pipeline, write_info, dict_at, revert_info, revert_metadata, revert_change,
  apply_modify, intervene, update_first,
}

module _ {F : Type 0} where
  -- A record without its metadata and its version.
  abbrev pub bare : EvaluationRecord F → EvaluationRecord F
  bare r = record r { metadata = []; system_version = none }

  bare-revert_version :
      (d : Dict (Value F)) (r : EvaluationRecord F) → bare (revert_version d r) ≡ bare r
  unfolding revert_version
  bare-revert_version d r = elim (Option-cases (get "old_system_version" d)) [
    | inl e ↦ rw (revert_version, e) refl
    | inr (v, e) ↦ rw (revert_version, e) refl
  ]

  bare-revert_pipeline :
      (d : Dict (Value F)) (r : EvaluationRecord F) → bare (revert_pipeline d r) ≡ bare r
  unfolding revert_pipeline
  bare-revert_pipeline d r = elim (Option-cases (get "old_pipeline" d)) [
    | inl e ↦ rw (revert_pipeline, e) refl
    | inr (v, e) ↦ rw (revert_pipeline, e) refl
  ]

  bare-revert_metadata :
      (d : Dict (Value F)) (r : EvaluationRecord F) → bare (revert_metadata d r) ≡ bare r
  unfolding revert_metadata
  bare-revert_metadata d r = elim (Option-cases (dict_at "metadata_diff" d)) [
    | inl e ↦ rw (revert_metadata, e) refl
    | inr (diff, e) ↦ rw (revert_metadata, e) refl
  ]

  bare-revert_info :
      (d : Dict (Value F)) (r r' : EvaluationRecord F) → revert_info d r ≡ ok r' → bare r' ≡ bare r
  unfolding revert_info
  bare-revert_info d r r' h = elim (Option-cases (dict_at "system_info_diff" d)) [
    | inl e ↦ let same : r ≡ r' = ground (arith, e, h) in ap bare (sym same)
    | inr (diff, e) ↦
        elim (Result-cases (write_info diff (get_or "system_info" (dict end) r.metadata))) [
          | inl (info, w) ↦
              let same : record r { metadata = put "system_info" info r.metadata } ≡ r' =
                ground (arith, e, w, h) in
              ap bare (sym same)
          | inr (x, w) ↦ absurd (ground (arith, e, w, h))
        ]
  ]

  bare-revert_change :
      (r : EvaluationRecord F) (d : Dict (Value F)) (r' : EvaluationRecord F)
      → revert_change r d ≡ ok r'
      → bare r' ≡ bare r
  unfolding revert_change
  bare-revert_change r d r' h =
      let before = revert_pipeline d (revert_version d r) in
      elim (Result-cases (revert_info d before)) [
        | inl (s, e) ↦
            let same : revert_metadata d s ≡ r' = ground (arith, e, h) in
            ap bare (sym same)
            ∙ bare-revert_metadata d s
            ∙ bare-revert_info d before s e
            ∙ bare-revert_pipeline d (revert_version d r)
            ∙ bare-revert_version d r
        | inr (x, e) ↦ absurd (ground (arith, e, h))
      ]

  pub bare-intervene :
      (i : Intervention F) (c : ChangeEvent F) (r r' : EvaluationRecord F)
      → intervene i c r ≡ ok r'
      → bare r' ≡ bare r
  unfolding intervene apply_modify
  bare-intervene i c r r' h = elim (Bool-cases (str_eq i.action "remove")) [
    | inl e ↦ bare-revert_change r c.details r' (ground (arith, e, h))
    | inr e ↦ elim (Bool-cases (str_eq i.action "modify")) [
      | inl m ↦
          let same : apply_modify r i.override_metadata ≡ r' = ground (arith, e, m, h) in
          ap bare (sym same)
      | inr m ↦ let same : r ≡ r' = ground (arith, e, m, h) in ap bare (sym same)
    ]
  ]

  pub map-update_first :
      (id : String) (f : EvaluationRecord F → Result (EvaluationRecord F))
      → ((r r' : EvaluationRecord F) → f r ≡ ok r' → bare r' ≡ bare r)
      → (records records' : List (EvaluationRecord F)) → update_first id f records ≡ ok records'
      → map bare records' ≡ map bare records
  unfolding update_first
  map-update_first id f same [] records' h =
      let none_left : ◌≡◌ {A = List (EvaluationRecord F)} [] records' = ground (arith, h) in
      ap (map bare) (sym none_left)
  map-update_first id f same (r ∷ records) records' h = elim (Bool-cases (str_eq r.run_id id)) [
    | inl e ↦ elim (Result-cases (f r)) [
      | inl (r', g) ↦
          let now : r' ∷ records ≡ records' = ground (arith, e, g, h) in
          ap (map bare) (sym now) ∙ ap (λ b. b ∷ map bare records) (same r r' g)
      | inr (x, g) ↦ absurd (ground (arith, e, g, h))
    ]
    | inr e ↦ elim (Result-cases (update_first id f records)) [
      | inl (rest, g) ↦
          let now : r ∷ rest ≡ records' = ground (arith, e, g, h) in
          ap (map bare) (sym now)
          ∙ ap (λ bs. bare r ∷ bs) (map-update_first id f same records rest g)
      | inr (x, g) ↦ absurd (ground (arith, e, g, h))
    ]
  ]
