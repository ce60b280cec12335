-- ===== src/Causal.antt =====
-- evaluator/causal: what changed between runs, and how much each change explains a drift.
pub mod Changes
pub mod Features
pub mod Attribution
pub mod Fusion
