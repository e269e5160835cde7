-- ===== src/Access.antt =====
-- database/access_planner.rs and the scans of database/index_reader.rs: which rows an index reads.
pub mod Scan
pub mod Constraint
pub mod Collect
pub mod Plan
pub mod Candidate
