-- ===== src/Ingestion/Legacy/RoundTrip.antt =====
-- What a legacy answer keeps when it becomes a run and is read back
-- (evaluator/rag_pipelines/base.py).
use post_rag_drift_evaluator.Prelude.{
  String, Option, none, some, List, [], ◌∷◌, ◌≡◌, refl, ap, ◌∙◌, true, false, str_eq, if◌then◌else◌,
}
use post_rag_drift_evaluator.Float.{Float}
use post_rag_drift_evaluator.Dict.{Dict, get, has, put, get-put, get-put_self}
use post_rag_drift_evaluator.Value.{Value, num}
use post_rag_drift_evaluator.Ingestion.RunSchema.{RagSystemInfo, or_given, init_run}
use post_rag_drift_evaluator.Stored.Readers.{Loaded, loaded}
use post_rag_drift_evaluator.Ingestion.Legacy.{
  RagResponse, Validators, set_default, put_given, run_with, folded, given_vector, from_ragrun,
}

module _ {F : Type 0} ⦃fl : Float F⦄ where
  open fl use {decimal}

  get-put_other :
      (k j : String) (v : Value F) (d : Dict (Value F)) (o : Option (Value F))
      → str_eq k j ≡ false
      → get j d ≡ o
      → get j (put k v d) ≡ o
  get-put_other k j v d o h e = get-put k j v d ∙ ap (λ b. if b then some v else get j d) h ∙ e

  set_default-present :
      (k : String) (v w : Value F) (d : Dict (Value F)) → get k d ≡ some w → set_default k v d ≡ d
  unfolding has set_default
  set_default-present k v w d e =
      ap (λ o. if elim o [ none ↦ false | some u ↦ true ] then d else put k v d) e

  -- The metadata of the run of an answer.
  abbrev counted : RagResponse F → Dict (Value F)
  counted s =
      put "final_confidence" (num s.final_confidence)
        (put "reflection_iterations" (num s.reflection_iterations) s.metadata)

  counted-reflections :
      (s : RagResponse F)
      → get "reflection_iterations" (counted s) ≡ some (num s.reflection_iterations)
  counted-reflections s =
      get-put_other "final_confidence" "reflection_iterations" _ _ _ refl
        (get-put_self "reflection_iterations" _ s.metadata)

  counted-confidence :
      (s : RagResponse F) → get "final_confidence" (counted s) ≡ some (num s.final_confidence)
  counted-confidence s = get-put_self "final_confidence" _ _

  defaults-counted :
      (s : RagResponse F)
      → set_default "final_confidence"
          (num (decimal 0 0))
          (set_default "reflection_iterations" (num (decimal 0 0)) (counted s))
        ≡ counted s
  defaults-counted s =
      ap (set_default "final_confidence" (num (decimal 0 0)))
        (set_default-present "reflection_iterations" _ _ (counted s) (counted-reflections s))
      ∙ set_default-present "final_confidence" _ _ (counted s) (counted-confidence s)

  get-unnamed :
      (j : String) (w : Value F) (uuid4 : String) (now : F) (s : RagResponse F)
      → str_eq "timestamp" j ≡ false
      → str_eq "schema_version" j ≡ false
      → str_eq "run_id" j ≡ false
      → get j (counted s) ≡ some w
      → get j (folded (run_with uuid4 now s none)) ≡ some w
  unfolding folded run_with put_given init_run
  get-unnamed j w uuid4 now s time version id e = get-put_other "timestamp" j _ _ _ time (
      get-put_other "schema_version" j _ _ _ version
        (get-put_other "run_id" j _ _ _ id (ap (get j) (defaults-counted s) ∙ e)))

  -- Folding the identity of a run into its metadata leaves the other keys alone.
  get-folded :
      (j : String) (w : Value F) (uuid4 : String) (now : F) (s : RagResponse F)
      (info : Option RagSystemInfo)
      → str_eq "system_info" j ≡ false
      → str_eq "timestamp" j ≡ false
      → str_eq "schema_version" j ≡ false
      → str_eq "run_id" j ≡ false
      → get j (counted s) ≡ some w
      → get j (folded (run_with uuid4 now s info)) ≡ some w
  unfolding folded run_with put_given init_run
  get-folded j w uuid4 now s none system time version id e =
      get-unnamed j w uuid4 now s time version id e
  get-folded j w uuid4 now s (some i) system time version id e =
      get-put_other "system_info" j _ _ _ system (get-unnamed j w uuid4 now s time version id e)

  -- What a legacy answer has beside its metadata.
  abbrev pub IsSameAnswer : RagResponse F → Loaded (RagResponse F) → Type 0
  IsSameAnswer s (loaded t) = t ≡ record s { metadata = t.metadata }
  IsSameAnswer s _ = true ≡ false

  given_vector-given : (xs : List F) → or_given (given_vector xs) [] ≡ xs
  given_vector-given [] = refl
  given_vector-given (x ∷ xs) = refl

  -- A legacy answer that became a run is read back with its query, contexts, answer, embedding,
  -- reflections and confidence, if pydantic keeps the two numbers. Only the metadata is another.
  pub from_ragrun-run_with :
      (c : Validators F) (uuid4 : String) (now : F) (s : RagResponse F)
      (info : Option RagSystemInfo)
      → c.count (num s.reflection_iterations) ≡ loaded s.reflection_iterations
      → c.score (num s.final_confidence) ≡ loaded s.final_confidence
      → IsSameAnswer s (from_ragrun c (run_with uuid4 now s info))
  unfolding from_ragrun run_with
  from_ragrun-run_with c uuid4 now s info h h' =
      let e =
        get-folded "reflection_iterations" _ uuid4 now s info refl refl refl refl
          (counted-reflections s) in
      let e' =
        get-folded "final_confidence" _ uuid4 now s info refl refl refl refl
          (counted-confidence s) in
      rw (e, e', h, h', given_vector-given s.query_embedding) refl
