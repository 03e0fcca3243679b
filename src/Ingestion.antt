-- ===== src/Ingestion.antt =====
-- workers/src: the recurring cycle that polls the satellites and offers detection reports.
pub mod Queue
pub mod Firms
pub mod Sources
pub mod Cycle
