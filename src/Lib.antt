-- ===== src/Lib.antt =====
-- The post-RAG drift evaluator of this repository watches a retrieval-augmented generation system. It
-- collects evaluation records, detects drift in their metrics and embeddings, attributes the drift to
-- changes of the system, simulates the removal of those changes, and proposes or blocks remediation
-- actions. This library models the decision core of that program and proves what makes it correct.
--
-- The parts, and the files that model them. Paths are from the repository's root.
--   - Models: the records that the parts exchange (evaluator/metrics/results.py,
--     evaluator/storage/models.py, evaluator/temporal/models.py, evaluator/causal/models.py,
--     evaluator/counterfactual/models.py, evaluator/optimization/models.py). Random identifiers that
--     no code of the pipeline reads are left out there, and stand in Stored.
--   - Temporal: metric series and the mean shift detection (evaluator/temporal/series.py,
--     evaluator/temporal/drift_detection.py). A drift event starts the rest of the pipeline.
--   - Causal: changes between consecutive records, their features and scores, and the attribution
--     (evaluator/causal/change_extractor.py, feature_builder.py, attribution.py beside it), and the
--     fusion of latent drift into the failure priors of a graph (evaluator/causal/fusion.py).
--   - Counterfactual: scenarios from the attribution, the interventions on a copy of the records, and
--     the estimate of the metric (evaluator/counterfactual/).
--   - Optimization: the selection of an action from the results (evaluator/optimization/engine.py), the
--     planned actions and their ranking (actions.py, scorer.py, optimizer.py beside it), and the closed
--     loop (runner.py), which calls the simulation, the engine and the guardrail and keeps the history
--     of executed actions.
--   - Guardrails: the policy that lets an action pass or names the rule it breaks
--     (evaluator/guardrails/policy.py).
--   - Latent: the streaming buffer, the adaptive threshold and the engine that decides on the drift of
--     embeddings (evaluator/latent_drift/streaming.py, adaptive.py and engine.py beside it).
--   - Telemetry and Drift: the frames of telemetry (evaluator/schemas/telemetry.py), the drift of graph
--     topologies and of agent swarms (evaluator/drift/), and the monitor that evaluates a window of
--     frames against a baseline, with the thresholds that it applies, restores and records by
--     (evaluator/drift_monitor.py).
--   - Ingestion: the in-memory buffer of telemetry and its worker (ingestion/queue.py), as steps that
--     may follow each other in any order (Ingestion/Queue), and the worker on a Redis stream
--     (ingestion/redis_queue.py, Ingestion/Stream): calls, turns, failures of the repository, ends of
--     the process and messages of other producers, in any order. Ingestion/Stream/Server states what
--     is taken of Redis, and Ingestion/Stream/Memory is a stream in memory that meets it.
--     Ingestion/RunSchema is the run of a pipeline, its validation and the frame of
--     telemetry that it becomes (ingestion/run_schema.py); Drift/Monitor/Runs compares windows of runs.
--     Ingestion/Legacy is the legacy answer of a pipeline (evaluator/rag_pipelines/base.py).
--   - Stored: the data model as dictionaries, which the stores and the API write and read (`to_dict`
--     and `from_dict` of the files under Models, of the graph in evaluator/causal/fusion.py and of runs).
--     Stored/History is the history of evaluation records, a file and the temporary file that replaces
--     it (evaluator/storage/json_store.py), and its copies on disk and in memory
--     (evaluator/storage/in_memory_store.py).
--   - Alerts: the severity and the cooldown of alerts (evaluator/alerts.py).
--   - Api: the rate limiter of the service (api/middleware/rate_limit.py) and the check of its keys
--     (api/middleware/auth.py).
--
-- State and effects. A method that writes returns the new state: `run_optimization_cycle` the new
-- execution history beside its result, `ingest` the new buffer beside the exception it raised. A store
-- of records is a list. Exceptions are values of `Result`. The clock, `uuid5`, `uuid4`, the random
-- index of the buffer, numpy's arrays and `str.lower` are arguments.
--
-- Numbers. Python's `float` is a type with the interface `Float`; the theorems on order assume
-- `IsOrdered`, which states what IEEE 754 and `round` promise of comparisons, NaN included. `Milli`,
-- numbers in thousandths with a NaN, fulfils it and runs the definitions in the tests. `square` may
-- overflow, as `**` does with an OverflowError; the estimator of counterfactuals is modelled for times
-- whose squared distances do not. Counts are natural numbers.
--
-- Values. Metadata dictionaries hold `Value`, and keep the order of insertion as Python's do. Quotes
-- in the text of a nested value are not escaped when it is printed.
--
-- Fuel. `range_from` takes the number of items it may give; detection gives it one more than the
-- length of the series, and `events_by_chunk` is right for any fuel above that length. Every other
-- loop is structural recursion.
--
-- Not modelled: the numeric kernels of numpy, scipy and sklearn (parameters of the engine and the
-- monitor), the bootstrap calibration, the database, the routes of the HTTP interface, the channels
-- of alerts, configuration, the pipelines that call language models, and the user interfaces.
-- They are outside the decision core or are calls of other programs.
--
-- Tests holds concrete inputs, on which the definitions run.
pub mod Prelude
pub mod Stored
pub mod Float
pub mod Value
pub mod Result
pub mod Dict
pub mod Latent
pub mod Models
pub mod Guardrails
pub mod Temporal
pub mod Causal
pub mod Counterfactual
pub mod Optimization
pub mod Ingestion
pub mod Api
pub mod Alerts
pub mod Telemetry
pub mod Drift
pub mod Tests
