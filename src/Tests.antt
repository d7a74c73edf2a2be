-- ===== src/Tests.antt =====
-- Runs of the model and instances of its theorems.
mod Findings
mod Filters
mod Outputs
mod Baseline
mod Pairs
mod Scans
mod Issues
mod Runs
mod Settings
