-- ===== src/Notifications.antt =====
-- The notifications of the program: their templates, configuration and alerts.
pub mod Template
pub mod Config
pub mod Alert
pub mod Lifecycle
pub mod Dispatch
