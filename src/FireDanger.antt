-- ===== src/FireDanger.antt =====
-- workers/src/fire-danger/fwi.ts and workers/src/ingestion/fire-danger.task.ts: the Canadian fire
-- weather index of each zone.
pub mod Numbers
pub mod Codes
pub mod Indices
pub mod Bounds
pub mod Daily
pub mod Refresh
pub mod Serving
