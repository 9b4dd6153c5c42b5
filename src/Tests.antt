-- ===== src/Tests.antt =====
-- Runs of the handlers on a small file system, and the theorems at inputs that meet their
-- hypotheses.
pub mod Setup
pub mod Samples
pub mod Witnesses
pub mod Names
pub mod Listing
pub mod CommandLine
