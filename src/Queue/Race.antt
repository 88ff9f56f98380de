-- ===== src/Queue/Race.antt =====
-- The scripts against one another: what a worker that lost its lease, or that holds a version
-- which was overwritten, can still change.
pub mod Overwrite
pub mod Lease
