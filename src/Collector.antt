-- ===== src/Collector.antt =====
-- apps/collectors and apps/scheduler.py: how a collector is chosen, one collection, the last results,
-- and the runs of one collector under its lock.
pub mod Collect
pub mod Payloads
pub mod Status
pub mod Lock
pub mod Loop
