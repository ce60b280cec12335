-- ===== src/Temporal/Detection/Chunks.antt =====
-- Drift detection beside a comparison of the consecutive full chunks of the series.
use post_rag_drift_evaluator.Prelude.{
  ℕ, zero, suc, ◌+◌, ◌-◌, ◌*◌, ◌≤◌, ◌<◌, String, ◌≡◌, refl, ap, ◌∙◌, sym, inl, inr, List, [], ◌++◌,
  arith, true, false, ltb, length, take, drop, if◌then◌else◌, Bool-cases, length-drop, length-take,
  drop-drop,
}
use post_rag_drift_evaluator.Result.{ok}
use post_rag_drift_evaluator.Float.{Float}
use post_rag_drift_evaluator.Models.Records.{DriftEvent}
use post_rag_drift_evaluator.Temporal.Series.{Point}
use post_rag_drift_evaluator.Temporal.Detection.{
  range_from, slice, compare_windows, scan_windows, detect_drift_events,
}

module _ {F : Type 0} ⦃fl : Float F⦄ (fresh : ℕ → String) (w : ℕ) (threshold : F)
    (metric_name : String) where
  -- The chunk `prev` ends at position `i`: compare it with the next full chunk, and go on from that.
  unfoldable pub events_by_chunk : ℕ → ℕ → List (Point F) → List (Point F) → List (DriftEvent F)
  events_by_chunk zero i prev rest = []
  events_by_chunk (suc fuel) i prev rest =
      let later = events_by_chunk fuel (i + w) (take w rest) (drop w rest) in
      if ltb (length rest) w
      then []
      else compare_windows (fresh i) w threshold metric_name prev (take w rest) ++ later

  -- Any two fuels above the length of the rest give the same events.
  events_by_chunk-fuel :
      (f g i : ℕ) (prev rest : List (Point F))
      → 0 < w
      → length rest < f
      → length rest < g
      → events_by_chunk f i prev rest ≡ events_by_chunk g i prev rest
  unfolding events_by_chunk
  events_by_chunk-fuel zero g i prev rest p hf hg = absurd (omega arith)
  events_by_chunk-fuel (suc f) zero i prev rest p hf hg = absurd (omega arith)
  events_by_chunk-fuel (suc f) (suc g) i prev rest p hf hg =
      elim (Bool-cases (ltb (length rest) w)) [
        | inl e ↦ rw e
        | inr e ↦
            let size = length-drop w rest in
            rw e (
              ap (λ t. compare_windows (fresh i) w threshold metric_name prev (take w rest) ++ t)
                (events_by_chunk-fuel f g (i + w) (take w rest) (drop w rest) p (ground arith)
                  (ground arith)))
      ]

  scan_windows-events_by_chunk :
      (series : List (Point F)) (fuel i : ℕ)
      → 0 < w
      → w ≤ i
      → w ≤ length series
      → scan_windows fresh w threshold metric_name series
          (range_from fuel i (length series - w + 1) w)
        ≡ events_by_chunk fuel i (slice (i - w) i series) (drop i series)
  unfolding scan_windows range_from events_by_chunk
  scan_windows-events_by_chunk series zero i p h l = refl
  scan_windows-events_by_chunk series (suc fuel) i p h l =
      let d = drop i series in
      let size = length-drop i series in
      let curr : slice i (i + w) series ≡ take w d = ap (λ k. take k d) (omega arith) in
      let prev : slice (i + w - w) (i + w) series ≡ take w d =
        ap (λ b. take (i + w - b) (drop b series)) back ∙ curr in
      let next =
        scan_windows-events_by_chunk series fuel (i + w) p (omega arith) l
        ∙ ap (λ c. events_by_chunk fuel (i + w) c (drop (i + w) series)) prev
        ∙ ap (events_by_chunk fuel (i + w) (take w d)) (sym (drop-drop w i series)) in
      elim (Bool-cases (ltb i (length series - w + 1))) [
        | inl e ↦
            let room : ltb (length d) w ≡ false = ground arith in
            let full : ltb (length (slice i (i + w) series)) w ≡ false =
              rw curr (ground (arith, length-take w d)) in
            rw (e, full, room)
              (rw next (
                ap
                  (λ c.
                    compare_windows (fresh i) w threshold metric_name (slice (i - w) i series) c
                    ++ events_by_chunk fuel (i + w) (take w d) (drop w d))
                  curr))
        | inr e ↦ let room : ltb (length d) w ≡ true = ground arith in rw (e, room) refl
      ]
    where
      back : i + w - w ≡ i
      back = omega arith

  -- For a window size that is not zero, detection returns the events of the consecutive full chunks of
  -- the series; any fuel above its length serves the comparison.
  pub detect_drift_events-eq-events_by_chunk :
      (series : List (Point F)) (fuel : ℕ)
      → 0 < w
      → length series < fuel
      → detect_drift_events fresh series w threshold metric_name
        ≡ ok (events_by_chunk fuel w (take w series) (drop w series))
  unfolding detect_drift_events events_by_chunk
  detect_drift_events-eq-events_by_chunk series fuel p h =
      let n = length series in
      let size = length-drop w series in
      elim (Bool-cases (ltb n (w * 2))) [
        | inl short ↦ rw short (ap ok (sym (none_left fuel (ground arith) (ground arith))))
        | inr long ↦
            let scan =
              scan_windows-events_by_chunk series (n + 1) w p (omega arith) (ground arith)
              ∙ ap (λ c. events_by_chunk (n + 1) w c (drop w series)) first
              ∙ events_by_chunk-fuel (n + 1) fuel w (take w series) (drop w series) p (ground arith)
                  (ground arith) in
            ground (arith, scan)
      ]
    where
      none_before : w - w ≡ 0
      none_before = omega arith

      whole : w - 0 ≡ w
      whole = omega arith

      first : slice (w - w) w series ≡ take w series
      first = ap (λ b. take (w - b) (drop b series)) none_before ∙ ap (λ b. take b series) whole

      none_left :
          (f : ℕ)
          → 0 < f
          → length (drop w series) < w
          → events_by_chunk f w (take w series) (drop w series) ≡ []
      none_left zero h k = absurd (omega arith)
      none_left (suc f) h k = ground arith
