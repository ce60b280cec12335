-- ===== src/Alerts.antt =====
-- evaluator/alerts.py. The three channels are output and get the alert that `send_alert` returns; the
-- readings of `time.time()` and of `datetime.now` are arguments.
pub mod Spacing
use post_rag_drift_evaluator.Prelude.{
  String, Bool, true, false, Option, none, some, List, [], ◌∷◌, concat, if◌then◌else◌,
}
use post_rag_drift_evaluator.Float.{Float}
use post_rag_drift_evaluator.Dict.{Dict, get, get_or, put}

pub record DriftAlert (F : Type 0) : Type 0 where
  pub severity : String
  pub jsd_score : F
  pub mmd_score : Option F
  pub threshold : F
  pub timestamp : F
  pub message : String
  pub correlation_id : String

pub record AlertManager (F : Type 0) : Type 0 where
  pub last_alert_time : Dict F
  pub alert_cooldown : F

-- The arguments of one call of `send_alert`, and the readings of the clocks in it.
pub record Call (F : Type 0) : Type 0 where
  pub jsd_score : F
  pub threshold : F
  pub mmd_score : Option F
  pub mmd_p_value : Option F
  pub correlation_id : String
  pub now : F
  pub timestamp : F

module _ {F : Type 0} ⦃fl : Float F⦄ where
  open fl use {decimal, sub, mul, lt, show, format}

  unfoldable pub init : AlertManager F
  init = record { last_alert_time = []; alert_cooldown = decimal 300 0 }

  -- `last_alert_time.get(severity, 0.0)`
  abbrev pub last_of : AlertManager F → String → F
  last_of m severity = get_or severity (decimal 0 0) m.last_alert_time

  unfoldable pub is_rate_limited : F → String → AlertManager F → AlertManager F × Bool
  unfolding get put
  is_rate_limited now severity m =
      if lt (sub now (last_of m severity)) m.alert_cooldown
      then (m, true)
      else (record m { last_alert_time = put severity now m.last_alert_time }, false)

  abbrev pub below : Option F → F → Bool
  below none bound = false
  below (some p) bound = lt p bound

  unfoldable pub determine_severity : F → F → Option F → String
  determine_severity jsd_score threshold mmd_p_value =
      if lt (mul threshold (decimal 15 1)) jsd_score
      then "critical"
      else if below mmd_p_value (decimal 1 2)
      then "critical"
      else "warning"

  unfoldable pub severity_of : Call F → String
  unfolding determine_severity
  severity_of c = determine_severity c.jsd_score c.threshold c.mmd_p_value

  unfoldable pub alert_of : Call F → DriftAlert F
  unfolding severity_of
  alert_of c = record {
    severity = severity_of c;
    jsd_score = c.jsd_score;
    mmd_score = c.mmd_score;
    threshold = c.threshold;
    timestamp = c.timestamp;
    message =
        concat
          ("Drift detected: JSD=" ∷ format 4 c.jsd_score ∷ ", threshold=" ∷ show c.threshold ∷ []);
    correlation_id = c.correlation_id;
  }

  unfoldable pub send_alert : Call F → AlertManager F → AlertManager F × Option (DriftAlert F)
  unfolding is_rate_limited severity_of alert_of
  send_alert c m =
      let (m', limited) = is_rate_limited c.now (severity_of c) m in
      (m', if limited then none else some (alert_of c))

  unfoldable pub flush : AlertManager F → AlertManager F
  flush m = record m { last_alert_time = [] }
