-- ===== src/Examples.antt =====
-- The theorems at concrete inputs.
mod Documents
mod Merges
mod Graphs
mod Runs
mod Tasks
mod Payments
