-- ===== src/Omp/EventUnit/Inv.antt =====
-- The invariant of the event unit of sw/snRuntime/src/omp/eu.h.
pub mod Defs
pub mod Worker
pub mod Main
