-- ===== src/Notifications.antt =====
-- backend/src/notifications and the forecast's watchdog: who is told what, and how often.
pub mod Dispatch
pub mod Escalation
pub mod Watchdog
pub mod Texts
