-- ===== src/Lib.antt =====
-- Verification of better-auth-rs: sessions, the device authorization grant, organization members,
-- API keys, administration, the guards of requests and the rate limit.
--
-- The parts and their files (paths from the repository's root):
--   Session   crates/core/src/session.rs (SessionManager) is Session/Manager, its reading of a request's
--             token and AuthContext::require_session of crates/core/src/plugin.rs are Session/Token;
--             the statements of crates/seaorm/src/store/sessions.rs are Session/Statements, and
--             issue_user_session of crates/api/src/plugins/helpers.rs is Session/Issue.
--   Device    crates/api/src/plugins/device_authorization: Device/Grant (handle_device_code), Device/Token
--             (handle_device_token), Device/Verify, Device/Decision (approve and deny), Device/Plugin (the
--             routes), Device/Config and Device/Codes (configuration, texts, replies); the statements of
--             crates/seaorm/src/store/device_codes.rs are Device/Statements.
--   Organization  crates/api/src/plugins/organization: Organization/Rbac (rbac.rs) and
--             Organization/Members (handlers/member.rs); crates/seaorm/src/store/members.rs is
--             Organization/Statements.
--   ApiKey    crates/seaorm/src/store/api_keys.rs is ApiKey/Usage (consume_api_key_usage and the fields of
--             an update) and ApiKey/Statements; of crates/api/src/plugins/api_key, the configurations are
--             ApiKey/Config, the validators ApiKey/Validators, generate_key ApiKey/Generate,
--             check_permissions ApiKey/Permissions, validate_api_key with the throttled cleanup
--             ApiKey/Validate, the requests and views ApiKey/Requests with ApiKey/Checks, the handlers
--             ApiKey/Keys and the routes ApiKey/Plugin; get_owned_api_key and
--             require_org_api_key_permission of crates/api/src/plugins/helpers.rs are ApiKey/Access.
--   Admin     crates/api/src/plugins/admin: Admin/Access (access.rs), Admin/Users and
--             Admin/Impersonate (handlers.rs), Admin/Update (update_user of
--             crates/seaorm/src/store/users.rs) and Admin/Plugin (the routes of mod.rs).
--   Config    crates/core/src/config.rs: origins, redirect targets, disabled paths, the secret.
--   Middleware, Csrf, Cors  crates/core/src/middleware: the chains of mod.rs, csrf.rs and cors.rs.
--   Headers   the headers of a response (crates/core/src/types.rs).
--   RateLimit crates/core/src/middleware/rate_limit.rs.
--   Error, Request  crates/core/src/error.rs, crates/core/src/types.rs.
--   Store     how handlers reach the database; Store/Db has the tables and Store/Table the statements.
--   Tests     a small installation, and the theorems at work on it.
--
-- A handler is a function of the world: the database, and a schedule that says, before each statement,
-- what other requests do to the database and whether the statement fails. A statement is atomic, and so
-- is a transaction. The empty schedule (`alone`) is a handler that nobody interrupts. Store/Rely and
-- Store/Triple reason about any schedule of requests that keep a preorder on databases, as the life of
-- a device code (Device/Lifecycle); Store/Alone reasons about handlers that run alone.
-- A session is looked up through Session/Manager by the device handlers and by require_session; the
-- device handlers issue sessions by Session/Issue; the member handlers use the statements on sessions.
--
-- Conventions: an instant is a natural number of nanoseconds since an epoch before all instants, a
-- configured duration one of nanoseconds; a difference of instants and an i64 or i32 column are integers.
-- `clock n` is the n-th reading of the clock in a call. Fresh identifiers, tokens and random bytes are
-- arguments. A hash map is an association list. A date that travels as RFC 3339 text stands as its
-- instant. A body is what the validator leaves: parsed, or the response that rejects it. No database
-- hooks are registered. Log lines and response headers are left out. Loops are recursion on lists; no
-- fuel is used.
--
-- Parameters, since their code is elsewhere: the cookie crate's split_parse, the url crate and its form
-- parser, the glob_match crate, serde_json's values and parsing, floating-point arithmetic, chrono's
-- addition of seconds, the hash of an API key, the callbacks and generators, and str::to_lowercase.
--
-- Not modelled: the API key plugin's before_request, the admin routes on creating, updating, listing and
-- removing users and on passwords, invitations and organization handlers, the body limit,
-- two-factor, passkey, OAuth, password and user management, which come next; macros, the schema
-- registry, the command line and the framework bindings, which only generate or wire code.
pub mod Admin
pub mod ApiKey
pub mod Config
pub mod Cors
pub mod Csrf
pub mod Device
pub mod Error
pub mod Headers
pub mod Middleware
pub mod Organization
pub mod Prelude
pub mod RateLimit
pub mod Request
pub mod Session
pub mod Store
pub mod Tests
