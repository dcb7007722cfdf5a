-- ===== src/Sensors.antt =====
-- nexus_n3/sensor_manager/SensorManager.py: which outputs of a sensor go to which other sensors, and
-- how the values on their way are queued.
pub mod Routes
pub mod Queue
pub mod Gateway
mod Tests
