-- ===== src/RiskZones.antt =====
-- backend/src/risk-zones: the hazard zones, their keys, their table and the check of their outlines.
pub mod Slug
pub mod Keys
pub mod Geometry
pub mod Table
