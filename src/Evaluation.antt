-- ===== src/Evaluation.antt =====
-- backend/src/evaluation: the alert taxonomy, the rule, and the service around it.
pub mod Level
pub mod Credible
pub mod Decision
pub mod Report
pub mod Service
