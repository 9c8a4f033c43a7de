-- ===== src/Tests.antt =====
-- Runs of the program on concrete inputs, and the theorems at these inputs.
mod Turns
mod Compaction
mod Stores
mod Access
mod Quotas
mod Facts
mod Jobs
mod Providers
mod Documents
mod Calls
mod Vectors
mod Http
mod Imports
