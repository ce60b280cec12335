-- ===== src/Latent/Engine/Decision.antt =====
-- What an engine decides, and what it keeps (evaluator/latent_drift/engine.py).

use mathlib.Core.List.{foldl}
use post_rag_drift_evaluator.Prelude.{
  ◌+◌, String, ◌≡◌, refl, ap, ◌∙◌, Bool, true, false, Option, none, some, List, [], ◌∷◌, str_eq,
  if◌then◌else◌, subst,
}
use post_rag_drift_evaluator.Float.{Float}
use post_rag_drift_evaluator.Result.{Result, ok, err, Error, ◌>>=◌}
use post_rag_drift_evaluator.Dict.{get}
use post_rag_drift_evaluator.Latent.Adaptive.{AdaptiveThresholdManager, update}
use post_rag_drift_evaluator.Latent.Models.{LatentDriftResult}
use post_rag_drift_evaluator.Latent.Engine.{
  ArrayKernels, LatentDriftEngine, fit, effective_threshold, score_of, result_of_score,
  compute_drift, compute_metric, update_manager, decided, fitted, projected_baseline, with_density,
  fit_projection, fit_with,
}
use post_rag_drift_evaluator.Latent.Engine.Tracks.{
  DualTracks, compare_tracks, compute_dual_track_drift, after_tracks_fit,
}

module _ {F : Type 0} ⦃fl : Float F⦄ (k : ArrayKernels F) where
  open fl use {lt}
  open k use {Array}

  -- What a call answers whose score is known, on the engine that it leaves: a result by the threshold
  -- that the engine has then, or the exception that the threshold raises.
  abbrev pub IsAnswer : LatentDriftEngine k → F → Result (LatentDriftResult F) → Type 0
  IsAnswer e score (err x) = effective_threshold k e ≡ err x
  IsAnswer e score (ok r) =
      (r.drift_score ≡ score)
      × (effective_threshold k e ≡ ok r.threshold)
      × (r.drift_detected ≡ lt r.threshold score)

  -- A call whose score raises leaves the engine alone. Any other has shown its score to the manager.
  abbrev pub IsDecision :
      LatentDriftEngine k
      → Result (k.Pca × Array × Array × F)
      → LatentDriftEngine k × Result (LatentDriftResult F)
      → Type 0
  IsDecision e (err x) o = (o.0 ≡ e) × (o.1 ≡ err x)
  IsDecision e (ok (p, b, c, score)) o =
      (o.0 ≡ record e { threshold_manager = update_manager k score e.threshold_manager })
      × IsAnswer o.0 score o.1

  answer_lem :
      (e : LatentDriftEngine k) (p : k.Pca) (b c : Array) (score : F) (t : Result F)
      → effective_threshold k e ≡ t
      → IsAnswer e score (do u ← t; ok (result_of_score k e p b c score u))
  unfolding result_of_score
  answer_lem e p b c score (err x) h = h
  answer_lem e p b c score (ok u) h = (refl, h, refl)

  decided-IsDecision :
      (e : LatentDriftEngine k) (s : Result (k.Pca × Array × Array × F))
      → IsDecision e s (decided k e s)
  decided-IsDecision e (err x) = (refl, refl)
  decided-IsDecision e (ok (p, b, c, score)) =
      let e' = record e { threshold_manager = update_manager k score e.threshold_manager } in
      (refl, answer_lem e' p b c score (effective_threshold k e') refl)

  pub compute_drift-IsDecision :
      (v : Array) (e : LatentDriftEngine k) → IsDecision e (score_of k e v) (compute_drift k v e)
  unfolding compute_drift
  compute_drift-IsDecision v e = decided-IsDecision e (score_of k e v)

  -- A sequence of batches, with what each call returns or raises.
  unfoldable pub compute_all :
      List Array → LatentDriftEngine k → LatentDriftEngine k × List (Result (LatentDriftResult F))
  unfolding compute_drift
  compute_all [] e = (e, [])
  compute_all (v ∷ vs) e =
      let (e', r) = compute_drift k v e in let (e'', rs) = compute_all vs e' in (e'', r ∷ rs)

  -- The scores that the engine computes of some batches; it has none of a batch that raises.
  abbrev pub scored : Result (k.Pca × Array × Array × F) → List F → List F
  scored (err x) xs = xs
  scored (ok (p, b, c, score)) xs = score ∷ xs

  abbrev pub scores_of : LatentDriftEngine k → List Array → List F
  scores_of e [] = []
  scores_of e (v ∷ vs) = scored (score_of k e v) (scores_of e vs)

  -- The manager, if there is one, updated with some scores in order.
  abbrev pub update_all :
      List F → Option (AdaptiveThresholdManager F) → Option (AdaptiveThresholdManager F)
  update_all xs none = none
  update_all xs (some m) = some (foldl (λ n x. update x n) m xs)

  update_all-update_manager :
      (x : F) (xs : List F) (m : Option (AdaptiveThresholdManager F))
      → update_all xs (update_manager k x m) ≡ update_all (x ∷ xs) m
  update_all-update_manager x xs none = refl
  update_all-update_manager x xs (some m) = refl

  update_all_nil : (m : Option (AdaptiveThresholdManager F)) → m ≡ update_all [] m
  update_all_nil none = refl
  update_all_nil (some m) = refl

  -- The engine, with a manager that has seen some scores.
  abbrev pub shown : List F → LatentDriftEngine k → LatentDriftEngine k
  shown xs e = record e { threshold_manager = update_all xs e.threshold_manager }

  -- The scores do not depend on the manager.
  scores_of-manager :
      (m : Option (AdaptiveThresholdManager F)) (e : LatentDriftEngine k) (vs : List Array)
      → scores_of (record e { threshold_manager = m }) vs ≡ scores_of e vs
  unfolding score_of
  scores_of-manager m e [] = refl
  scores_of-manager m e (v ∷ vs) = ap (scored (score_of k e v)) (scores_of-manager m e vs)

  after_batch :
      (vs : List Array) (e : LatentDriftEngine k) (s : Result (k.Pca × Array × Array × F))
      → ((e' : LatentDriftEngine k) → (compute_all vs e').0 ≡ shown (scores_of e' vs) e')
      → (compute_all vs (decided k e s).0).0 ≡ shown (scored s (scores_of e vs)) e
  after_batch vs e (err x) h = h e
  after_batch vs e (ok (p, b, c, score)) h =
      let m = update_manager k score e.threshold_manager in
      let e' = record e { threshold_manager = m } in
      h e'
      ∙ ap (λ xs. shown xs e') (scores_of-manager m e vs)
      ∙ ap (λ n. record e { threshold_manager = n })
          (update_all-update_manager score (scores_of e vs) e.threshold_manager)

  -- After any batches the engine differs only in its adaptive manager, which has seen the score of
  -- every batch that has one, in order; a batch whose score raises has left no trace, and one
  -- whose score was seen has left it also if the threshold raised then.
  pub compute_all-engine :
      (vs : List Array) (e : LatentDriftEngine k) → (compute_all vs e).0 ≡ shown (scores_of e vs) e
  unfolding compute_all compute_drift
  compute_all-engine [] e =
      ap (λ n. record e { threshold_manager = n }) (update_all_nil e.threshold_manager)
  compute_all-engine (v ∷ vs) e = after_batch vs e (score_of k e v) (λ e'. compute_all-engine vs e')

  -- A track of the comparison: its own score against the threshold of the engine, and the score under
  -- the name of the track in the breakdown that all tracks share.
  unfoldable pub IsStaticTrack : F → String → LatentDriftResult F → Type 0
  unfolding get
  IsStaticTrack threshold track r =
      (r.threshold ≡ threshold)
      × (r.drift_detected ≡ lt threshold r.drift_score)
      × (r.track ≡ track)
      × (get track r.metric_breakdown ≡ some r.drift_score)

  unfoldable pub IsStatic : F → Result (DualTracks F) → Type 0
  unfolding IsStaticTrack
  IsStatic threshold (err x) = Unit
  IsStatic threshold (ok d) =
      IsStaticTrack threshold "retrieval" d.retrieval
      × IsStaticTrack threshold "generation" d.generation
      × IsStaticTrack threshold "unified" d.unified

  bind-IsStatic {ℓ} :
      {A : Type ℓ} (t : F) (m : Result A) (f : A → Result (DualTracks F))
      → ((a : A) → IsStatic t (f a))
      → IsStatic t (m >>= f)
  unfolding IsStatic
  bind-IsStatic t (ok a) f h = h a
  bind-IsStatic t (err x) f h = tt

  compare_tracks-IsStatic :
      (br cr bg cg : Array) (e : LatentDriftEngine k)
      → IsStatic e.threshold (compare_tracks k br cr bg cg e)
  unfolding compare_tracks IsStatic IsStaticTrack
  compare_tracks-IsStatic br cr bg cg e = bind-IsStatic e.threshold (fitted k e.pca) _ (λ p.
      bind-IsStatic e.threshold (k.project_vectors p cr) _ (λ cur_ret.
        bind-IsStatic e.threshold (k.project_vectors p cg) _ (λ cur_gen.
          let base = projected_baseline k e.baseline_proj in
          let n = k.rows br in
          bind-IsStatic e.threshold (compute_metric k e (k.slice 0 n base) cur_ret) _ (λ ret.
            bind-IsStatic e.threshold (compute_metric k e (k.slice n (n + k.rows bg) base) cur_gen)
              _
              (λ gen.
                bind-IsStatic e.threshold (compute_metric k e base (k.stack cur_ret cur_gen)) _
                  (λ uni. (
                    (refl, refl, refl, refl),
                    (refl, refl, refl, refl),
                    (refl, refl, refl, refl),
                  )))))))

  abbrev Keeps : LatentDriftEngine k → LatentDriftEngine k × Option Error → Type 0
  Keeps e (e', x) = (e'.threshold ≡ e.threshold) × (e'.threshold_manager ≡ e.threshold_manager)

  with_density-Keeps : (e : LatentDriftEngine k) (r : Result k.Kde) → Keeps e (with_density k e r)
  with_density-Keeps e (err x) = (refl, refl)
  with_density-Keeps e (ok d) = (refl, refl)

  if-Keeps :
      (b : Bool) (e : LatentDriftEngine k) (o : LatentDriftEngine k × Option Error)
      → Keeps e o
      → Keeps e (if b then o else (e, none))
  if-Keeps true e o h = h
  if-Keeps false e o h = (refl, refl)

  fit_projection-Keeps :
      (e : LatentDriftEngine k) (v : Array) (r : Result Array) → Keeps e (fit_projection k e v r)
  fit_projection-Keeps e v (err x) = (refl, refl)
  fit_projection-Keeps e v (ok proj) =
      let e' = record e { baseline_proj = some proj } in
      if-Keeps (str_eq e.metric "jsd") e' (with_density k e' (k.fit_kde proj))
        (with_density-Keeps e' (k.fit_kde proj))

  fit_with-Keeps :
      (e : LatentDriftEngine k) (v : Array) (r : Result k.Pca) → Keeps e (fit_with k e v r)
  fit_with-Keeps e v (err x) = (refl, refl)
  fit_with-Keeps e v (ok p) =
      fit_projection-Keeps (record e { pca = some p }) v (k.project_vectors p v)

  fit-Keeps : (v : Array) (e : LatentDriftEngine k) → Keeps e (fit k v e)
  unfolding fit
  fit-Keeps v e = fit_with-Keeps e v (k.fit_pca e.pca_components v)

  dual-IsStatic :
      (br cr bg cg : Array) (e : LatentDriftEngine k) (o : LatentDriftEngine k × Option Error)
      → Keeps e o
      → let d = after_tracks_fit k br cr bg cg o in
        (d.0.threshold_manager ≡ e.threshold_manager) × IsStatic e.threshold d.1
  unfolding IsStatic
  dual-IsStatic br cr bg cg e (e', some x) (h, m) = (m, tt)
  dual-IsStatic br cr bg cg e (e', none) (h, m) = (
    m,
    subst (λ t. IsStatic t (compare_tracks k br cr bg cg e')) h
        (compare_tracks-IsStatic br cr bg cg e'),
  )

  -- The comparison of the tracks decides each track by the static threshold of the engine, also when it
  -- has an adaptive manager, which it neither reads nor shows a score; the breakdown of each
  -- result names its own score under its track.
  pub compute_dual_track_drift-IsStatic :
      (br cr bg cg : Array) (e : LatentDriftEngine k)
      → let d = compute_dual_track_drift k br cr bg cg e in
        (d.0.threshold_manager ≡ e.threshold_manager) × IsStatic e.threshold d.1
  unfolding compute_dual_track_drift
  compute_dual_track_drift-IsStatic br cr bg cg e =
      dual-IsStatic br cr bg cg e (fit k (k.stack br bg) e) (fit-Keeps (k.stack br bg) e)
