-- ===== src/Stored.antt =====
-- The `to_dict` and `from_dict` methods of the data model, which the stores and the API write and
-- read records with. The children hold the methods, a file per source file, and their round trips.
pub mod Readers
pub mod Metrics
pub mod Records
pub mod Causes
pub mod Interventions
pub mod Optimizations
pub mod Graph
pub mod Runs
pub mod History
