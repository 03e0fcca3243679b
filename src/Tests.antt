-- ===== src/Tests.antt =====
-- Concrete inputs: each module applies the theorems of a part of the program to one.
pub mod Rule
pub mod Reports
pub mod Planning
pub mod Alarms
pub mod Screens
pub mod Probes
pub mod Zones
pub mod Polls
pub mod Replays
pub mod Registry
pub mod Pages
pub mod Danger
pub mod Places
pub mod Settings
pub mod Keys
