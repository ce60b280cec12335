-- ===== src/Optimization.antt =====
-- evaluator/optimization: from the causes of a drift to remediation actions, and the closed loop.
pub mod Actions
pub mod Scorer
pub mod Planner
pub mod Engine
pub mod Runner
