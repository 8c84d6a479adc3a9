-- ===== src/Examples.antt =====
-- Concrete inputs: test data, runs of the models on them, and instances of the theorems.
mod Data
mod Drained
mod Mirrored
mod Baselines
mod Equalities
mod Locks
mod Runs
mod Parsing
mod Plans
mod Revisions
mod Stored
mod Tables
mod Reviews
mod Notices
mod Analyses
mod Confirmations
