-- ===== src/Backfill.antt =====
-- The replay of the satellite archive: backend/src/backfill and, in workers/src/ingestion,
-- satellite-backfill.plan.ts and satellite-backfill.task.ts.
pub mod Plan
pub mod Pacing
pub mod Runs
pub mod Weather
pub mod Nightly
pub mod Actions
pub mod Replay
