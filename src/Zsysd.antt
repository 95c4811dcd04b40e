-- ===== src/Zsysd.antt =====
-- The system-service broker, system/zsysd/main.c.
pub mod Csv
pub mod Wire
pub mod State
pub mod Manifests
pub mod Grants
pub mod Notifs
pub mod Settings
pub mod Intents
pub mod Handle
pub mod Loop
