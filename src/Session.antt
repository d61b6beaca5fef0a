-- ===== src/Session.antt =====
-- Sessions: the statements on the sessions table (crates/seaorm/src/store/sessions.rs) and the
-- session manager (crates/core/src/session.rs). No database hook is registered.
pub mod Statements
pub mod Manager
pub mod Token
pub mod Issue
