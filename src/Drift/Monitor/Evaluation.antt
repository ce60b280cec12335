-- ===== src/Drift/Monitor/Evaluation.antt =====
-- evaluator/drift_monitor.py: `DriftMonitor.evaluate_frames` with the thresholds that it applies and
-- restores. What the baseline service answers is an argument, as are the outcomes of the writes to
-- the store; the frames that are written and the alerts that are handed to the notifier are
-- kept. alerting/notifier.py never raises.
pub mod Restoring
use post_rag_drift_evaluator.Prelude.{
  ℕ, suc, ◌<◌, String, Bool, true, false, ◌&&◌, ◌||◌, not, Option, none, some, List, [], ◌∷◌, ◌++◌,
  map, length, ltb, ◌==◌, if◌then◌else◌,
}
use post_rag_drift_evaluator.Float.{Float}
use post_rag_drift_evaluator.Result.{Result, ok, err, Error, runtime_error, ◌>>=◌}
use post_rag_drift_evaluator.Dict.{Dict, get, get_or}
use post_rag_drift_evaluator.Telemetry.{RagEvaluationFrame, GraphTopology, ExecutionMetadata}
use post_rag_drift_evaluator.Drift.Graph.{GraphDriftCalculator, GraphDrift, compute_graph_drift}
use post_rag_drift_evaluator.Drift.Swarm.{
  SwarmDriftCalculator, SwarmDrift, payload, payload_hops, compute_swarm_drift,
}
use post_rag_drift_evaluator.Drift.Monitor.{
  DriftMonitor, SavedThresholds, Kernels, VectorDrift, compute_jensen_shannon_drift,
  compute_mmd_drift, collect_vector_embeddings, width,
}

pub record Evaluation (F : Type 0) : Type 0 where
  pub vector_drift : VectorDrift F
  pub graph_drift : GraphDrift F
  pub swarm_drift : SwarmDrift F
  pub is_drifted : Bool

-- The metrics of `record_evaluation`; "wasserstein_distance" is always `None`.
pub record EvaluationMetrics (F : Type 0) : Type 0 where
  pub js_divergence : F
  pub mmd_score : F
  pub is_drifted : Bool
  pub spectral_distance : F
  pub density_delta : F
  pub node_count_delta : F
  pub transition_entropy_delta : F
  pub avg_reflection_iterations_delta : F

-- What a baseline service answers.
pub record BaselineService (F : Type 0) : Type 0 where
  pub fetched : Result (List (RagEvaluationFrame F))
  pub calibrate : List (RagEvaluationFrame F) → Result (Dict F)

pub record Outcome (F : Type 0) : Type 0 where
  pub monitor : DriftMonitor F
  pub notified : List (Evaluation F)
  pub recorded : List (RagEvaluationFrame F × EvaluationMetrics F)
  pub returned : Result (Evaluation F)

-- The frames that were written, and whether every write went through.
abbrev pub Writes : Type 0 → Type 0
Writes F = List (RagEvaluationFrame F × EvaluationMetrics F) × Bool

module _ {F : Type 0} ⦃fl : Float F⦄ where
  open fl use {decimal, lt, feq}

  abbrev stable_vectors : VectorDrift F
  stable_vectors = record {
    js_divergence = decimal 0 0;
    mmd_score = decimal 0 0;
    is_drifted = false;
  }

  -- With fewer than two vectors in a window the MMD test is left out.
  abbrev mmd_part : Kernels F → DriftMonitor F → List (List F) → List (List F) → Result (F × Bool)
  mmd_part k m b c =
      if ltb (length b) 2 || ltb (length c) 2
      then ok (decimal 0 0, false)
      else (do (score, p_value, drifted) ← compute_mmd_drift k m b c; ok (score, drifted))

  unfoldable pub compare_vectors :
      Kernels F
      → DriftMonitor F
      → Option (List (List F))
      → Option (List (List F))
      → Result (VectorDrift F)
  unfolding compute_jensen_shannon_drift compute_mmd_drift
  compare_vectors k m (some b) (some c) =
      if width b == width c
      then (do
        (js_score, js_drifted) ← compute_jensen_shannon_drift k m b c
        (mmd_score, mmd_drifted) ← mmd_part k m b c
        ok (record {
          js_divergence = js_score;
          mmd_score = mmd_score;
          is_drifted = js_drifted || mmd_drifted;
        }))
      else ok stable_vectors
  compare_vectors k m _ _ = ok stable_vectors

  unfoldable pub evaluate_vector_drift :
      Kernels F
      → DriftMonitor F
      → List (RagEvaluationFrame F)
      → List (RagEvaluationFrame F)
      → Result (VectorDrift F)
  unfolding collect_vector_embeddings compare_vectors
  evaluate_vector_drift k m baseline current = do
    b ← collect_vector_embeddings baseline
    c ← collect_vector_embeddings current
    compare_vectors k m b c

  unfoldable pub graphs_of : List (RagEvaluationFrame F) → List (GraphTopology F)
  graphs_of [] = []
  graphs_of (f ∷ fs) = elim f.context.graph_topology [
    | none ↦ graphs_of fs
    | some g ↦ g ∷ graphs_of fs
  ]

  unfoldable pub evaluate_graph_drift :
      Kernels F
      → DriftMonitor F
      → List (RagEvaluationFrame F)
      → List (RagEvaluationFrame F)
      → GraphDrift F
  unfolding graphs_of compute_graph_drift
  evaluate_graph_drift k m baseline current = elim (graphs_of baseline ++ graphs_of current) [
    | [] ↦ record {
      spectral_distance = decimal 0 0;
      density_delta = decimal 0 0;
      node_count_delta = decimal 0 0;
      is_graph_drifted = false;
    }
    | _ ∷ _ ↦
        compute_graph_drift k.eigen_distance m.graph_calculator (graphs_of baseline)
          (graphs_of current)
  ]

  -- `frame.metadata.agent_hops or frame.metadata.reflection_iterations`
  abbrev has_agents : ExecutionMetadata F → Bool
  has_agents p =
      not (length (payload_hops p) == 0) || not (feq p.reflection_iterations (decimal 0 0))

  unfoldable pub traces_of : List (RagEvaluationFrame F) → List (ExecutionMetadata F)
  traces_of [] = []
  traces_of (f ∷ fs) =
      let rest = traces_of fs in if has_agents f.metadata then f.metadata ∷ rest else rest

  unfoldable pub evaluate_swarm_drift :
      Kernels F
      → DriftMonitor F
      → List (RagEvaluationFrame F)
      → List (RagEvaluationFrame F)
      → Result (SwarmDrift F)
  unfolding traces_of compute_swarm_drift
  evaluate_swarm_drift k m baseline current = elim (traces_of baseline ++ traces_of current) [
    | [] ↦ ok (record {
      transition_entropy_delta = decimal 0 0;
      avg_reflection_iterations_delta = decimal 0 0;
      is_swarm_drifted = false;
    })
    | _ ∷ _ ↦
        compute_swarm_drift k.log k.values m.swarm_calculator (map payload (traces_of baseline))
          (map payload (traces_of current))
  ]

  -- The body of the `try`, and the result.
  unfoldable pub measure :
      Kernels F
      → DriftMonitor F
      → List (RagEvaluationFrame F)
      → List (RagEvaluationFrame F)
      → Result (Evaluation F)
  unfolding evaluate_vector_drift evaluate_graph_drift evaluate_swarm_drift
  measure k m baseline current = do
    vector ← evaluate_vector_drift k m baseline current
    let graph = evaluate_graph_drift k m baseline current
    swarm ← evaluate_swarm_drift k m baseline current
    ok (record {
      vector_drift = vector;
      graph_drift = graph;
      swarm_drift = swarm;
      is_drifted = vector.is_drifted || graph.is_graph_drifted || swarm.is_swarm_drifted;
    })

module _ {F : Type 0} where
  -- The names of the keys are those of the baseline service.
  unfoldable pub apply_calibrated_thresholds : Dict F → DriftMonitor F → DriftMonitor F
  unfolding get
  apply_calibrated_thresholds [] m = m
  apply_calibrated_thresholds (t ∷ ts) m =
      let d = t ∷ ts in
      record {
        threshold = get_or "vector_jsd_threshold" m.threshold d;
        mmd_threshold = get_or "vector_mmd_threshold" m.mmd_threshold d;
        per_component_kl_threshold =
            get_or "vector_per_component_kl_threshold" m.per_component_kl_threshold d;
        calibrated_thresholds = d;
        calibrated = true;
        graph_calculator = record m.graph_calculator {
          spectral_threshold =
              get_or "graph_spectral_threshold" m.graph_calculator.spectral_threshold d;
        };
        swarm_calculator = record m.swarm_calculator {
          entropy_threshold =
              get_or "swarm_entropy_threshold" m.swarm_calculator.entropy_threshold d;
        };
        saved_thresholds = some (record {
          jsd = m.threshold;
          mmd = m.mmd_threshold;
          kl = m.per_component_kl_threshold;
          spectral = m.graph_calculator.spectral_threshold;
          graph_density = m.graph_calculator.density_threshold;
          entropy = m.swarm_calculator.entropy_threshold;
          reflection = m.swarm_calculator.reflection_threshold;
          calibrated = m.calibrated;
          calibrated_thresholds = m.calibrated_thresholds;
        });
      }

  abbrev restore_saved : Option (SavedThresholds F) → DriftMonitor F → DriftMonitor F
  restore_saved none m = m
  restore_saved (some s) m = record {
    threshold = s.jsd;
    mmd_threshold = s.mmd;
    per_component_kl_threshold = s.kl;
    calibrated_thresholds = s.calibrated_thresholds;
    calibrated = s.calibrated;
    graph_calculator = record m.graph_calculator {
      spectral_threshold = s.spectral;
      density_threshold = s.graph_density;
    };
    swarm_calculator = record {
      entropy_threshold = s.entropy;
      reflection_threshold = s.reflection;
    };
    saved_thresholds = none;
  }

  unfoldable pub restore_thresholds : DriftMonitor F → DriftMonitor F
  restore_thresholds m = restore_saved m.saved_thresholds m

  abbrev pub metrics_of : Evaluation F → EvaluationMetrics F
  metrics_of e = record {
    js_divergence = e.vector_drift.js_divergence;
    mmd_score = e.vector_drift.mmd_score;
    is_drifted = e.is_drifted;
    spectral_distance = e.graph_drift.spectral_distance;
    density_delta = e.graph_drift.density_delta;
    node_count_delta = e.graph_drift.node_count_delta;
    transition_entropy_delta = e.swarm_drift.transition_entropy_delta;
    avg_reflection_iterations_delta = e.swarm_drift.avg_reflection_iterations_delta;
  }

  -- A write that succeeds is followed by the others.
  abbrev pub first_write : Bool → RagEvaluationFrame F × EvaluationMetrics F → Writes F → Writes F
  first_write true p (written, all) = (p ∷ written, all)
  first_write false p rest = ([], false)

  -- The writes, up to the first that raises; whether all went through.
  unfoldable pub record_all :
      (ℕ → Bool) → EvaluationMetrics F → List (RagEvaluationFrame F) → Writes F
  record_all stores e [] = ([], true)
  record_all stores e (f ∷ fs) =
      first_write (stores 0) (f, e) (record_all (λ i. stores (suc i)) e fs)

  -- What follows the measures: the notifier, if there is one, then a record for each frame.
  unfoldable pub report :
      Bool
      → (ℕ → Bool)
      → List (RagEvaluationFrame F)
      → DriftMonitor F
      → Result (Evaluation F)
      → Outcome F
  unfolding record_all
  report notifies stores current m (err e) = record {
    monitor = m;
    notified = [];
    recorded = [];
    returned = err e;
  }
  report notifies stores current m (ok e) =
      let (written, all) = record_all stores (metrics_of e) current in
      record {
        monitor = m;
        notified = if notifies then e ∷ [] else [];
        recorded = written;
        returned = if all then ok e else err runtime_error;
      }

  -- The frames of the sliding window and the thresholds that they give.
  unfoldable pub calibrated_baseline :
      BaselineService F → Result (List (RagEvaluationFrame F) × Dict F)
  calibrated_baseline service = do
    frames ← service.fetched
    thresholds ← service.calibrate frames
    ok (frames, thresholds)

module _ {F : Type 0} ⦃fl : Float F⦄ where
  -- With the frames of the service and its thresholds, which are restored whatever the measures do.
  unfoldable pub evaluate_dynamic :
      Kernels F
      → Bool
      → (ℕ → Bool)
      → DriftMonitor F
      → Result (List (RagEvaluationFrame F) × Dict F)
      → List (RagEvaluationFrame F)
      → Outcome F
  unfolding apply_calibrated_thresholds restore_thresholds measure report
  evaluate_dynamic k notifies stores m (err e) current = report notifies stores current m (err e)
  evaluate_dynamic k notifies stores m (ok (frames, thresholds)) current =
      let applied = apply_calibrated_thresholds thresholds m in
      report notifies stores current (restore_thresholds applied) (measure k applied frames current)

  unfoldable pub evaluate_frames :
      Kernels F
      → Bool
      → (ℕ → Bool)
      → DriftMonitor F
      → Option (BaselineService F)
      → List (RagEvaluationFrame F)
      → List (RagEvaluationFrame F)
      → Outcome F
  unfolding evaluate_dynamic calibrated_baseline measure report
  evaluate_frames k notifies stores m (some service) [] current =
      evaluate_dynamic k notifies stores m (calibrated_baseline service) current
  evaluate_frames k notifies stores m _ baseline current =
      report notifies stores current m (measure k m baseline current)
