-- ===== src/Drift/Monitor/Evaluation/Restoring.antt =====
-- The thresholds of the monitor, and what it records, over a whole evaluation
-- (evaluator/drift_monitor.py).
use post_rag_drift_evaluator.Prelude.{
  ℕ, suc, ◌≡◌, refl, sym, ap, ◌∙◌, Bool, true, false, Option, none, some, List, [], ◌∷◌, map,
  if◌then◌else◌, arith,
}
use post_rag_drift_evaluator.Float.{Float}
use post_rag_drift_evaluator.Result.{Result, ok, err, runtime_error}
use post_rag_drift_evaluator.Dict.{Dict}
use post_rag_drift_evaluator.Telemetry.{RagEvaluationFrame}
use post_rag_drift_evaluator.Drift.Monitor.{DriftMonitor, Kernels}
use post_rag_drift_evaluator.Drift.Monitor.Evaluation.{
  Evaluation, EvaluationMetrics, BaselineService, Outcome, measure, apply_calibrated_thresholds,
  restore_thresholds, metrics_of, record_all, Writes, first_write, report, calibrated_baseline,
  evaluate_dynamic, evaluate_frames,
}

module _ {F : Type 0} where
  restore-apply :
      (t : Dict F) (m : DriftMonitor F)
      → m.saved_thresholds ≡ none
      → restore_thresholds (apply_calibrated_thresholds t m) ≡ m
  unfolding restore_thresholds apply_calibrated_thresholds
  restore-apply [] m e = rw e refl
  restore-apply (t ∷ ts) m e = ap (λ s. record m { saved_thresholds = s }) (sym e)

  report-monitor :
      (notifies : Bool) (stores : ℕ → Bool) (current : List (RagEvaluationFrame F))
      (m : DriftMonitor F) (r : Result (Evaluation F))
      → (report notifies stores current m r).monitor ≡ m
  unfolding report
  report-monitor notifies stores current m (err e) = refl
  report-monitor notifies stores current m (ok e) = refl

module _ {F : Type 0} ⦃fl : Float F⦄ where
  dynamic-monitor :
      (k : Kernels F) (notifies : Bool) (stores : ℕ → Bool) (m : DriftMonitor F)
      (r : Result (List (RagEvaluationFrame F) × Dict F)) (current : List (RagEvaluationFrame F))
      → m.saved_thresholds ≡ none
      → (evaluate_dynamic k notifies stores m r current).monitor ≡ m
  unfolding evaluate_dynamic
  dynamic-monitor k notifies stores m (err e) current n =
      report-monitor notifies stores current m (err e)
  dynamic-monitor k notifies stores m (ok (frames, t)) current n =
      report-monitor notifies stores current _ _ ∙ restore-apply t m n

  -- An evaluation leaves the monitor as it was, with the thresholds and the calibration it had,
  -- whether it returns or raises, and whatever thresholds the baseline service gives.
  pub evaluate_frames-monitor :
      (k : Kernels F) (notifies : Bool) (stores : ℕ → Bool) (m : DriftMonitor F)
      (service : Option (BaselineService F)) (baseline current : List (RagEvaluationFrame F))
      → m.saved_thresholds ≡ none
      → (evaluate_frames k notifies stores m service baseline current).monitor ≡ m
  unfolding evaluate_frames
  evaluate_frames-monitor k notifies stores m none baseline current e =
      report-monitor notifies stores current m _
  evaluate_frames-monitor k notifies stores m (some s) (f ∷ fs) current e =
      report-monitor notifies stores current m _
  evaluate_frames-monitor k notifies stores m (some s) [] current e =
      dynamic-monitor k notifies stores m (calibrated_baseline s) current e

  -- What an evaluation measures: with a service and no baseline, the frames of the service under
  -- its thresholds.
  abbrev pub measured_dynamic :
      Kernels F
      → DriftMonitor F
      → Result (List (RagEvaluationFrame F) × Dict F)
      → List (RagEvaluationFrame F)
      → Result (Evaluation F)
  measured_dynamic k m (err e) current = err e
  measured_dynamic k m (ok (frames, t)) current =
      measure k (apply_calibrated_thresholds t m) frames current

  abbrev pub measured :
      Kernels F
      → DriftMonitor F
      → Option (BaselineService F)
      → List (RagEvaluationFrame F)
      → List (RagEvaluationFrame F)
      → Result (Evaluation F)
  measured k m (some s) [] current = measured_dynamic k m (calibrated_baseline s) current
  measured k m _ baseline current = measure k m baseline current

  first_write-all :
      (b : Bool) (p : RagEvaluationFrame F × EvaluationMetrics F) (rest : Writes F)
      → (first_write b p rest).1 ≡ true
      → (rest.1 ≡ true) × ((first_write b p rest).0 ≡ p ∷ rest.0)
  first_write-all true p rest h = (h, refl)
  first_write-all false p rest h = absurd (ground (arith, h))

  record_all-all :
      (stores : ℕ → Bool) (e : EvaluationMetrics F) (fs : List (RagEvaluationFrame F))
      → (record_all stores e fs).1 ≡ true
      → (record_all stores e fs).0 ≡ map (λ f. (f, e)) fs
  unfolding record_all
  record_all-all stores e [] h = refl
  record_all-all stores e (f ∷ fs) h =
      let rest = record_all (λ i. stores (suc i)) e fs in
      let (all, q) = first_write-all (stores 0) (f, e) rest h in
      q ∙ ap (λ xs. (f, e) ∷ xs) (record_all-all (λ i. stores (suc i)) e fs all)

  returned_all :
      (all : Bool) (x e : Evaluation F)
      → (if all then ok x else err runtime_error) ≡ ok e
      → (all ≡ true) × (x ≡ e)
  returned_all true x e h = (refl, ground (arith, h))
  returned_all false x e h = absurd (ground (arith, h))

  -- A call that returns `e`, having measured `r`.
  abbrev pub IsComplete :
      Bool → List (RagEvaluationFrame F) → Result (Evaluation F) → Evaluation F → Outcome F → Type 0
  IsComplete notifies current r e o =
      (r ≡ ok e)
      × (o.recorded ≡ map (λ f. (f, metrics_of e)) current)
      × (o.notified ≡ (if notifies then e ∷ [] else []))

  report-IsComplete :
      (notifies : Bool) (stores : ℕ → Bool) (current : List (RagEvaluationFrame F))
      (m : DriftMonitor F) (r : Result (Evaluation F)) (e : Evaluation F)
      → (report notifies stores current m r).returned ≡ ok e
      → IsComplete notifies current r e (report notifies stores current m r)
  unfolding report
  report-IsComplete notifies stores current m (err x) e h = absurd (ground (arith, h))
  report-IsComplete notifies stores current m (ok x) e h =
      let writes = record_all stores (metrics_of x) current in
      let (all, same) = returned_all writes.1 x e h in
      (
        ap ok same,
        record_all-all stores (metrics_of x) current all
            ∙ ap (λ y. map (λ f. (f, metrics_of y)) current) same,
        ap (λ y. if notifies then y ∷ [] else []) same,
      )

  dynamic-IsComplete :
      (k : Kernels F) (notifies : Bool) (stores : ℕ → Bool) (m : DriftMonitor F)
      (r : Result (List (RagEvaluationFrame F) × Dict F)) (current : List (RagEvaluationFrame F))
      (e : Evaluation F)
      → (evaluate_dynamic k notifies stores m r current).returned ≡ ok e
      → IsComplete notifies current
          (measured_dynamic k m r current)
          e
          (evaluate_dynamic k notifies stores m r current)
  unfolding evaluate_dynamic
  dynamic-IsComplete k notifies stores m (err x) current e h =
      report-IsComplete notifies stores current m (err x) e h
  dynamic-IsComplete k notifies stores m (ok (frames, t)) current e h =
      report-IsComplete notifies stores current _ _ e h

  -- An evaluation that returns has measured what the applied thresholds and the baseline say, has
  -- recorded every current frame, in order, with the metrics of its result, and has handed the
  -- result to the notifier, if there is one.
  pub evaluate_frames-IsComplete :
      (k : Kernels F) (notifies : Bool) (stores : ℕ → Bool) (m : DriftMonitor F)
      (service : Option (BaselineService F)) (baseline current : List (RagEvaluationFrame F))
      (e : Evaluation F)
      → (evaluate_frames k notifies stores m service baseline current).returned ≡ ok e
      → IsComplete notifies current
          (measured k m service baseline current)
          e
          (evaluate_frames k notifies stores m service baseline current)
  unfolding evaluate_frames
  evaluate_frames-IsComplete k notifies stores m none baseline current e h =
      report-IsComplete notifies stores current m _ e h
  evaluate_frames-IsComplete k notifies stores m (some s) (f ∷ fs) current e h =
      report-IsComplete notifies stores current m _ e h
  evaluate_frames-IsComplete k notifies stores m (some s) [] current e h =
      dynamic-IsComplete k notifies stores m (calibrated_baseline s) current e h
