-- ===== src/Organization.antt =====
-- Organizations: crates/api/src/plugins/organization and crates/seaorm/src/store/members.rs.
pub mod Rbac
pub mod Statements
pub mod Members
