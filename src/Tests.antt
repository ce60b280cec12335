-- ===== src/Tests.antt =====
-- Concrete inputs, and the theorems at them.
mod Fixtures
mod Latent
mod Alerts
mod Guardrails
mod Ingestion
mod Stream
mod Stored
mod Drift
mod Engine
mod Runs
mod History
mod Auth
mod Temporal
mod Causal
mod Counterfactual
mod Optimization
