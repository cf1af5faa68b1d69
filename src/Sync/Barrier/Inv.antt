-- ===== src/Sync/Barrier/Inv.antt =====
-- The invariant of the barrier of sw/snRuntime/src/sync.h: which round is open, who has been
-- counted in it, and what the shared words say about that.
mod Keep
pub use Keep.{Move-Inv}
pub mod Defs
