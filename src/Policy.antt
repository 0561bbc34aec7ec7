-- ===== src/Policy.antt =====
-- internal/policy: the household's data, its store, and the evaluation of requests against it.
pub mod Types
pub mod TimeWindow
pub mod Evaluator
pub mod Store
pub mod Compiler
pub mod Password
pub mod Storage
pub mod Snapshot
pub mod Keys
pub mod Columns
pub mod Sqlite
