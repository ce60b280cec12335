-- ===== src/Alerts/Spacing.antt =====
-- The distance between alerts of one severity (evaluator/alerts.py).
use post_rag_drift_evaluator.Prelude.{
  String, ◌≡◌, ap, ◌∙◌, subst, false, Option, none, some, List, [], ◌∷◌, arith, inl, inr,
  Bool-cases, str_eq, eq_iff, if◌then◌else◌,
}
use post_rag_drift_evaluator.Float.{Float}
use post_rag_drift_evaluator.Dict.{put, get-put}
use post_rag_drift_evaluator.Alerts.{
  DriftAlert, AlertManager, Call, last_of, is_rate_limited, severity_of, alert_of, send_alert,
}

module _ {F : Type 0} ⦃fl : Float F⦄ where
  open fl use {sub, lt}

  -- What one call adds to the log of the alerts sent, each with the call's time.
  abbrev pub logged :
      Call F → Option (DriftAlert F) → List (F × DriftAlert F) → List (F × DriftAlert F)
  logged c none rest = rest
  logged c (some a) rest = (c.now, a) ∷ rest

  -- The alerts that a sequence of calls sends.
  unfoldable pub send_all : AlertManager F → List (Call F) → List (F × DriftAlert F)
  unfolding send_alert
  send_all m [] = []
  send_all m (c ∷ calls) = let (m', sent) = send_alert c m in logged c sent (send_all m' calls)

  -- No alert of the severity comes within the cooldown of the one before it, the first not within
  -- the cooldown of the given time.
  abbrev pub Spaced : String → F → F → List (F × DriftAlert F) → Type 0
  Spaced severity cooldown last [] = Unit
  Spaced severity cooldown last ((t, a) ∷ rest) =
      let here = Spaced severity cooldown t rest in
      let elsewhere = Spaced severity cooldown last rest in
      if str_eq a.severity severity then (lt (sub t last) cooldown ≡ false) × here else elsewhere

  last_of-put :
      (m : AlertManager F) (s j : String) (t : F)
      → last_of (record m { last_alert_time = put s t m.last_alert_time }) j
        ≡ (if str_eq s j then t else last_of m j)
  last_of-put m s j t = ground (arith, get-put s j t m.last_alert_time)

  -- Whatever calls follow each other, two alerts of one severity, between which none of it was sent,
  -- are never closer than the cooldown, and the first is not closer to the last one recorded before;
  -- alerts of other severities have no part in it.
  pub send_all-Spaced :
      (m : AlertManager F) (calls : List (Call F)) (severity : String)
      → Spaced severity m.alert_cooldown (last_of m severity) (send_all m calls)
  unfolding send_all send_alert is_rate_limited alert_of
  send_all-Spaced m [] severity = tt
  send_all-Spaced m (c ∷ calls) severity =
      let s = severity_of c in
      let m' : AlertManager F = record m { last_alert_time = put s c.now m.last_alert_time } in
      let rest = send_all-Spaced m' calls severity in
      elim (Bool-cases (lt (sub c.now (last_of m s)) m.alert_cooldown)) [
        | inl e ↦ rw e (send_all-Spaced m calls severity)
        | inr e ↦ elim (Bool-cases (str_eq s severity)) [
          | inl t ↦
              let same : s ≡ severity = (eq_iff s severity).0 t in
              let last : last_of m' severity ≡ c.now =
                last_of-put m s severity c.now
                ∙ ap (λ b. if b then c.now else last_of m severity) t in
              let apart : lt (sub c.now (last_of m severity)) m.alert_cooldown ≡ false =
                subst (λ j. lt (sub c.now (last_of m j)) m.alert_cooldown ≡ false) same e in
              rw (e, t)
                (
                  apart,
                  subst (λ x. Spaced severity m.alert_cooldown x (send_all m' calls)) last rest,
                )
          | inr n ↦
              let last : last_of m' severity ≡ last_of m severity =
                last_of-put m s severity c.now
                ∙ ap (λ b. if b then c.now else last_of m severity) n in
              rw (e, n)
                (subst (λ x. Spaced severity m.alert_cooldown x (send_all m' calls)) last rest)
        ]
      ]
