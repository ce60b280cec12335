-- ===== src/Tests/Drift.antt =====
-- The drift of windows of frames, at concrete inputs.
use post_rag_drift_evaluator.Prelude.{String, ◌≡◌, refl, true, false, none, some, List, [], ◌∷◌}
use post_rag_drift_evaluator.Float.Milli.{Milli, pos, milli}
use post_rag_drift_evaluator.Result.{Result, ok, err, value_error, type_error}
use post_rag_drift_evaluator.Telemetry.{RagEvaluationFrame}
use post_rag_drift_evaluator.Drift.Swarm.{
  SwarmDrift, SwarmMeta, SwarmValues, payload, fields, agent_hops, reflection_iterations,
  compute_swarm_drift,
}
use post_rag_drift_evaluator.Value.{num, text, items, nil, cons}
use post_rag_drift_evaluator.Drift.Swarm.Totality.{
  IsReadable, payload-IsReadable, compute_swarm_drift-returns,
}
use post_rag_drift_evaluator.Drift.Monitor.{DriftMonitor, Kernels}
use post_rag_drift_evaluator.Drift.Monitor.Evaluation.{BaselineService, Evaluation, evaluate_frames}
use post_rag_drift_evaluator.Drift.Monitor.Evaluation.Restoring.{
  measured, IsComplete, evaluate_frames-monitor, evaluate_frames-IsComplete,
}

-- In place of the numeric measures: the first coordinate of the second matrix.
abbrev first_value : List (List Milli) → Result Milli
first_value ((x ∷ xs) ∷ rows) = ok x
first_value _ = err value_error

-- A list of texts is the hops, and a number its own `int`.
abbrev values : SwarmValues Milli
values = record {
  iterate = λ v. elim v [ items (cons (text a) nil) ↦ ok (a ∷ []) | _ ↦ err type_error ];
  to_int = λ v. elim v [ num x ↦ ok x | _ ↦ err type_error ];
}

abbrev pub kernels : Kernels Milli
kernels = record {
  js = λ b c. first_value c;
  mmd_test = λ b c. ok (pos 100, pos 500);
  component_kl = λ b c. ok (pos 0, pos 0);
  eigen_distance = λ k b c. pos 0;
  log = λ x. pos 0;
  values = values;
}

abbrev pub monitor : DriftMonitor Milli
monitor = record {
  threshold = pos 150;
  mmd_threshold = pos 200;
  per_component_kl_threshold = pos 500;
  calibrated_thresholds = [];
  calibrated = false;
  graph_calculator = record {
    spectral_threshold = pos 500;
    density_threshold = pos 100;
    spectral_k = 5;
  };
  swarm_calculator = record { entropy_threshold = pos 500; reflection_threshold = pos 1000 };
  saved_thresholds = none;
}

abbrev frame_of : String → Milli → List String → RagEvaluationFrame Milli
frame_of id x hops = record {
  trace_id = id;
  timestamp = pos 0;
  query = record { text = "q"; embedding = some (x ∷ []) };
  context = record { text_chunks = []; dense_embeddings = none; graph_topology = none };
  metadata = record {
    rag_type = "swarm";
    agent_hops = some hops;
    reflection_iterations = pos 0;
    latency_ms = none;
    extra = [];
  };
  output = record { generated_answer = "a"; response_embedding = none; confidence_score = none };
}

abbrev old_frame : RagEvaluationFrame Milli
old_frame = frame_of "old" (pos 100) ("planner" ∷ "writer" ∷ [])

abbrev new_frame : RagEvaluationFrame Milli
new_frame = frame_of "new" (pos 300) ("planner" ∷ "critic" ∷ "writer" ∷ [])

-- A service whose calibration allows a greater distance than the static threshold.
abbrev service : BaselineService Milli
service = record {
  fetched = ok (old_frame ∷ []);
  calibrate = λ frames. ok (("vector_jsd_threshold", pos 350) ∷ []);
}

-- A payload that is a dictionary, with one hop.
abbrev one_hop : SwarmMeta Milli
one_hop = fields (
    ("agent_hops", items (cons (text "critic") nil))
    ∷ ("reflection_iterations", num (pos 2000))
    ∷ [])

one_hop-IsReadable : IsReadable values one_hop
unfolding agent_hops reflection_iterations milli
one_hop-IsReadable = (("critic" ∷ [], refl), (pos 2000, refl))

compute_swarm_drift-returns_example :
    (r : SwarmDrift Milli) × (compute_swarm_drift
        (λ x. x)
        values
        monitor.swarm_calculator
        (payload old_frame.metadata ∷ [])
        (one_hop ∷ payload new_frame.metadata ∷ [])
      ≡ ok r)
compute_swarm_drift-returns_example =
    compute_swarm_drift-returns (λ x. x) values monitor.swarm_calculator
      (payload old_frame.metadata ∷ []) (one_hop ∷ payload new_frame.metadata ∷ [])
      (payload-IsReadable values old_frame.metadata, tt)
      (one_hop-IsReadable, (payload-IsReadable values new_frame.metadata, tt))

-- Reflections that are no number raise.
unreadable :
    compute_swarm_drift
      (λ x. x)
      values
      monitor.swarm_calculator
      []
      (fields (("reflection_iterations", text "many") ∷ []) ∷ [])
    ≡ err type_error
unfolding compute_swarm_drift milli
unreadable = refl

-- The write to the store fails, and the call raises.
evaluate_frames-monitor_example :
    (evaluate_frames kernels true (λ i. false) monitor (some service) [] (new_frame ∷ [])).monitor
    ≡ monitor
evaluate_frames-monitor_example =
    evaluate_frames-monitor kernels true (λ i. false) monitor (some service) [] (new_frame ∷ [])
      refl

abbrev result : Evaluation Milli
result = record {
  vector_drift = record { js_divergence = pos 300; mmd_score = pos 0; is_drifted = false };
  graph_drift = record {
    spectral_distance = pos 0;
    density_delta = pos 0;
    node_count_delta = pos 0;
    is_graph_drifted = false;
  };
  swarm_drift = record {
    transition_entropy_delta = pos 0;
    avg_reflection_iterations_delta = pos 0;
    is_swarm_drifted = false;
  };
  is_drifted = false;
}

returned_result :
    (evaluate_frames kernels true (λ i. true) monitor (some service) [] (new_frame ∷ [])).returned
    ≡ ok result
unfolding evaluate_frames milli
returned_result = refl

evaluate_frames-IsComplete_example :
    IsComplete true
      (new_frame ∷ [])
      (measured kernels monitor (some service) [] (new_frame ∷ []))
      result
      (evaluate_frames kernels true (λ i. true) monitor (some service) [] (new_frame ∷ []))
evaluate_frames-IsComplete_example =
    evaluate_frames-IsComplete kernels true (λ i. true) monitor (some service) [] (new_frame ∷ [])
      result returned_result
