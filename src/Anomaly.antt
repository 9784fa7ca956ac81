-- ===== src/Anomaly.antt =====
-- The anomaly detection platform (anomaly-detection-platform/app): its records, the state of an
-- anomaly, the detection run with its cooldowns, and the notifications.
pub mod Records
pub mod Redis
pub mod Window
pub mod Sockets
pub mod Rules
pub mod Metrics
pub mod Dashboard
pub mod Consumer
pub mod Statistics
pub mod Routes
pub mod Workers
pub mod Floats
pub mod Detectors
pub mod Detection
pub mod Notifications
pub mod Anomalies
pub mod Listing
mod Examples
