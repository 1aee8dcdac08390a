-- ===== src/Programs.antt =====
-- The other four programs that share the dumpers' code, each as one instance of the model of
-- src/main_dump.c.
pub mod MainIcispcap
pub mod LatDump
pub mod LatSrcDump
pub mod Twins
pub mod TwinRuns
pub mod L2Main
mod Tests
