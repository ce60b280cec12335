-- ===== src/Tests/Alerts.antt =====
-- The alerts at concrete calls.
use post_rag_drift_evaluator.Prelude.{none, List, [], ◌∷◌}
use post_rag_drift_evaluator.Float.Milli.{Milli, pos, milli}
use post_rag_drift_evaluator.Alerts.{AlertManager, Call, init, last_of}
use post_rag_drift_evaluator.Alerts.Spacing.{send_all, Spaced, send_all-Spaced}

abbrev call_at : Milli → Milli → Call Milli
call_at now score = record {
  jsd_score = score;
  threshold = pos 200;
  mmd_score = none;
  mmd_p_value = none;
  correlation_id = "";
  now = now;
  timestamp = now;
}

abbrev calls : List (Call Milli)
calls =
    call_at (pos 1000000) (pos 250)
    ∷ call_at (pos 1010000) (pos 250)
    ∷ call_at (pos 1020000) (pos 900)
    ∷ call_at (pos 1400000) (pos 250)
    ∷ []

abbrev manager : AlertManager Milli
manager = init

send_all-Spaced_example :
    Spaced "warning" manager.alert_cooldown (last_of manager "warning") (send_all manager calls)
send_all-Spaced_example = send_all-Spaced manager calls "warning"
