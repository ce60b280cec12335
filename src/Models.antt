-- ===== src/Models.antt =====
-- The dataclasses that the stages of the pipeline hand to one another.
pub mod Records
pub mod Events
pub mod Scenarios
pub mod Actions
