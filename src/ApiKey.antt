-- ===== src/ApiKey.antt =====
-- API keys: crates/seaorm/src/store/api_keys.rs and crates/api/src/plugins/api_key.
pub mod Usage
pub mod Statements
pub mod Permissions
pub mod Config
pub mod Validate
pub mod Validators
pub mod Generate
pub mod Access
pub mod Requests
pub mod Checks
pub mod Keys
pub mod Plugin
