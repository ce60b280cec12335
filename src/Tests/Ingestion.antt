-- ===== src/Tests/Ingestion.antt =====
-- The ingestion buffer and the rate limiter at concrete inputs.
use post_rag_drift_evaluator.Prelude.{
  String, ◌≡◌, ◌<◌, refl, true, none, some, List, [], ◌∷◌, ◌++◌, map, arith, length, ltb,
}
use post_rag_drift_evaluator.Result.{ok, err, index_error, http_too_many_requests}
use post_rag_drift_evaluator.Float.Milli.{Milli, pos, milli, Milli-IsOrdered}
use post_rag_drift_evaluator.Dict.{Dict, values}
use post_rag_drift_evaluator.Api.RateLimit.{reset_rate_limits, Request, rate_limit}
use post_rag_drift_evaluator.Api.RateLimit.Window.{IsLimited, rate_limit-IsLimited}
use post_rag_drift_evaluator.Api.RateLimit.History.{
  IsClock, admit_all, rate_limit_all, rate_limit_all-eq-admit_all,
}
use post_rag_drift_evaluator.Ingestion.Queue.{
  AsyncIngestionBuffer, init, enqueue, start_worker, run_once, run, signal_stop,
}
use post_rag_drift_evaluator.Ingestion.Queue.Order.{
  Steps, start, next, enqueued, started, turned, seen, Steps-seen,
}
use post_rag_drift_evaluator.Ingestion.Queue.Stop.{closing, IsClosed, run-stops}

abbrev frames : List String
frames = "a" ∷ "b" ∷ "c" ∷ []

abbrev filled : AsyncIngestionBuffer String
filled = enqueue frames (init 2)

abbrev opened : AsyncIngestionBuffer String
opened = start_worker filled

abbrev turned_once : AsyncIngestionBuffer String
turned_once = run_once true opened

after_enqueue : Steps (init 2) frames filled
after_enqueue = next start (enqueued frames)

after_start : Steps (init 2) frames opened
after_start = next after_enqueue started

turned_once-Steps : Steps (init 2) frames turned_once
turned_once-Steps = next after_start (turned true)

Steps-seen_example : seen turned_once ≡ frames
Steps-seen_example = Steps-seen 2 turned_once-Steps

abbrev closing_buffer : AsyncIngestionBuffer String
closing_buffer = signal_stop opened

closing-running : closing_buffer.running ≡ true
unfolding signal_stop start_worker enqueue init
closing-running = refl

closing-queue : closing_buffer.queue ≡ closing frames
unfolding signal_stop start_worker enqueue init
closing-queue = refl

enough_turns : length {A = String} frames < 4
enough_turns = omega arith

run-stops_example :
    IsClosed (run 4 (λ i. ltb i 1) closing_buffer)
    × (map (λ e. e.0) (run 4 (λ i. ltb i 1) closing_buffer).written
        ≡ map (λ e. e.0) closing_buffer.written ++ frames)
run-stops_example =
    run-stops 4 (λ i. ltb i 1) closing_buffer frames closing-running closing-queue enough_turns

abbrev request : Request
request = record { api_key = some "k"; client_host = none }

abbrev requests : Dict (List Milli)
requests = ("apikey:k", pos 1000 ∷ pos 70000 ∷ []) ∷ []

requests-IsLimited : IsLimited 2 requests
unfolding values
requests-IsLimited = record { entries = (omega arith, tt) }

rate_limit-IsLimited_example : IsLimited 2 (rate_limit 2 (pos 90000) request requests).0
rate_limit-IsLimited_example =
    rate_limit-IsLimited 2 (pos 90000) request requests requests-IsLimited

-- Three requests within a minute and one behind it, with a limit of 2.
abbrev calls : List (Milli × Request)
calls = (pos 1000, request) ∷ (pos 2000, request) ∷ (pos 3000, request) ∷ (pos 61500, request) ∷ []

calls-IsClock : IsClock (pos 0) calls
unfolding milli
calls-IsClock = (refl, (refl, (refl, (refl, tt))))

calls-answers :
    rate_limit_all 2 calls []
    ≡ ok "apikey:k" ∷ ok "apikey:k" ∷ err http_too_many_requests ∷ ok "apikey:k" ∷ []
unfolding rate_limit_all milli
calls-answers = refl

no_limit : rate_limit_all {F = Milli} 0 calls [] ≡ map (λ c. err index_error) calls
unfolding rate_limit_all milli
no_limit = refl

rate_limit_all-eq-admit_all_example :
    rate_limit_all 2 calls reset_rate_limits ≡ admit_all 2 calls []
rate_limit_all-eq-admit_all_example =
    rate_limit_all-eq-admit_all Milli-IsOrdered 2 (pos 0) calls calls-IsClock
