-- ===== src/Device.antt =====
-- The OAuth 2.0 device authorization grant (crates/api/src/plugins/device_authorization).
pub mod Codes
pub mod Lifecycle
pub mod Statements
pub mod Progress
pub mod Config
pub mod Grant
pub mod Token
pub mod Verify
pub mod Decision
pub mod Plugin
