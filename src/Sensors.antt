-- ===== src/Sensors.antt =====
-- backend/src/sensors: ground sensors, their readings, and the conditions that they measure.
pub mod Current
pub mod Registry
pub mod Intake
