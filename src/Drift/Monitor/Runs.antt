-- ===== src/Drift/Monitor/Runs.antt =====
-- evaluator/drift_monitor.py: the vector drift between two windows of runs, and the frames that
-- ingestion/run_schema.py makes of them.
use post_rag_drift_evaluator.Prelude.{
  String, ◌≡◌, ◌≢◌, refl, ap, ◌∙◌, true, false, Option, none, some, List, [], ◌∷◌, All, arith,
  subst,
}
use post_rag_drift_evaluator.Float.{Float}
use post_rag_drift_evaluator.Result.{Result, ok, err, ◌>>=◌}
use post_rag_drift_evaluator.Dict.{Dict, get}
use post_rag_drift_evaluator.Telemetry.{RagEvaluationFrame}
use post_rag_drift_evaluator.Ingestion.RunSchema.{
  RagRun, Conversions, int_or_zero, confidence, to_evaluation_frame,
}
use post_rag_drift_evaluator.Drift.Monitor.{
  DriftMonitor, Kernels, VectorDrift, or_else, first_embedding, frame_embedding, add_filled,
  frame_vectors, as_matrix,
}
use post_rag_drift_evaluator.Drift.Monitor.Evaluation.{compare_vectors, evaluate_vector_drift}

module _ {F : Type 0} where
  abbrev pub run_embedding : RagRun F → Option (List F)
  run_embedding r =
      or_else r.query_embedding
        (or_else r.answer_embedding (first_embedding r.retrieved_embeddings))

  -- `if embedding is not None: vectors.append(...)`
  abbrev add_given : Option (List F) → List (List F) → List (List F)
  add_given none vs = vs
  add_given (some v) vs = v ∷ vs

  add_filled-eq-add_given :
      (o : Option (List F)) (vs : List (List F)) → o ≢ some [] → add_filled o vs ≡ add_given o vs
  add_filled-eq-add_given none vs h = refl
  add_filled-eq-add_given (some []) vs h = absurd (h refl)
  add_filled-eq-add_given (some (x ∷ xs)) vs h = refl

  unfoldable pub run_vectors : List (RagRun F) → List (List F)
  run_vectors [] = []
  run_vectors (r ∷ rs) = add_given (run_embedding r) (run_vectors rs)

  unfoldable pub collect_vector_embeddings_from_runs :
      List (RagRun F) → Result (Option (List (List F)))
  unfolding as_matrix run_vectors
  collect_vector_embeddings_from_runs runs = as_matrix (run_vectors runs)

module _ {F : Type 0} ⦃fl : Float F⦄ where
  unfoldable pub evaluate_vector_drift_between_runs :
      Kernels F → DriftMonitor F → List (RagRun F) → List (RagRun F) → Result (VectorDrift F)
  unfolding collect_vector_embeddings_from_runs compare_vectors
  evaluate_vector_drift_between_runs k m baseline current = do
    b ← collect_vector_embeddings_from_runs baseline
    c ← collect_vector_embeddings_from_runs current
    compare_vectors k m b c

  -- A frame that a run became, with some scores and at some time.
  abbrev pub IsFrameOf : Conversions F → RagRun F → RagEvaluationFrame F → Type 0
  IsFrameOf c r f =
      (uuid4 : String) × (now : F) × (scores : Dict F) × (to_evaluation_frame c uuid4 now scores r
        ≡ ok f)

  abbrev pub AreFramesOf : Conversions F → List (RagRun F) → List (RagEvaluationFrame F) → Type 0
  AreFramesOf c [] [] = Unit
  AreFramesOf c (r ∷ rs) (f ∷ fs) = IsFrameOf c r f × AreFramesOf c rs fs
  AreFramesOf c _ _ = true ≡ false

  -- A run whose embedding, if it has one, is not empty.
  abbrev pub IsFilled : RagRun F → Type 0
  IsFilled r = run_embedding r ≢ some []

  abbrev Has : Option (List F) → Result (RagEvaluationFrame F) → Type 0
  Has v (err x) = Unit
  Has v (ok f) = frame_embedding f ≡ v

  bind-Has {ℓ} :
      {A : Type ℓ} (v : Option (List F)) (m : Result A) (g : A → Result (RagEvaluationFrame F))
      → ((a : A) → Has v (g a))
      → Has v (m >>= g)
  bind-Has v (ok a) g h = h a
  bind-Has v (err x) g h = tt

  to_evaluation_frame-Has :
      (c : Conversions F) (uuid4 : String) (now : F) (scores : Dict F) (r : RagRun F)
      → Has (run_embedding r) (to_evaluation_frame c uuid4 now scores r)
  unfolding to_evaluation_frame
  to_evaluation_frame-Has c uuid4 now scores r =
      let v = run_embedding r in
      bind-Has v (int_or_zero c (get "reflection_iterations" r.metadata)) _ (λ n.
        bind-Has v (c.hops (get "agent_hops" r.metadata)) _ (λ h.
          bind-Has v (c.latency (get "latency_ms" r.metadata)) _
            (λ l. bind-Has v (confidence c (get "final_confidence" r.metadata)) _ (λ x. refl))))

  frame_embedding-run_embedding :
      (c : Conversions F) (r : RagRun F) (f : RagEvaluationFrame F)
      → IsFrameOf c r f
      → frame_embedding f ≡ run_embedding r
  frame_embedding-run_embedding c r f (uuid4, now, scores, e) =
      subst (Has (run_embedding r)) e (to_evaluation_frame-Has c uuid4 now scores r)

  frame_vectors-run_vectors :
      (c : Conversions F) (rs : List (RagRun F)) (fs : List (RagEvaluationFrame F))
      → AreFramesOf c rs fs
      → All IsFilled rs
      → frame_vectors fs ≡ run_vectors rs
  unfolding frame_vectors run_vectors
  frame_vectors-run_vectors c [] [] h filled = refl
  frame_vectors-run_vectors c [] (f ∷ fs) h filled = absurd (ground (arith, h))
  frame_vectors-run_vectors c (r ∷ rs) [] h filled = absurd (ground (arith, h))
  frame_vectors-run_vectors c (r ∷ rs) (f ∷ fs) (h, hs) (p, ps) =
      ap (λ o. add_filled o (frame_vectors fs)) (frame_embedding-run_embedding c r f h)
      ∙ ap (add_filled (run_embedding r)) (frame_vectors-run_vectors c rs fs hs ps)
      ∙ add_filled-eq-add_given (run_embedding r) (run_vectors rs) p

  -- The vector drift between two windows of runs is the vector drift between the windows of the frames
  -- that they become, if no run has an empty embedding.
  pub evaluate_vector_drift_between_runs-eq :
      (c : Conversions F) (k : Kernels F) (m : DriftMonitor F) (baseline current : List (RagRun F))
      (baseline_frames current_frames : List (RagEvaluationFrame F))
      → AreFramesOf c baseline baseline_frames
      → AreFramesOf c current current_frames
      → All IsFilled baseline
      → All IsFilled current
      → evaluate_vector_drift_between_runs k m baseline current
        ≡ evaluate_vector_drift k m baseline_frames current_frames
  unfolding evaluate_vector_drift_between_runs evaluate_vector_drift
  evaluate_vector_drift_between_runs-eq c k m bs cs bf cf hb hc pb pc =
      rw (frame_vectors-run_vectors c bs bf hb pb, frame_vectors-run_vectors c cs cf hc pc) refl
