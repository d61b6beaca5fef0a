-- ===== src/Admin/Plugin/Authorized.antt =====
-- Who may call the routes of the admin plugin.
use better_auth_rs.Prelude.{
  ℕ, String, Option, some, List, ◌≡◌, ◌⊎◌, refl, Any, true, false, if◌then◌else◌, Bool,
}
use better_auth_rs.Error.{AuthError, ok, err, err_ne_ok}
use better_auth_rs.Request.{AuthRequest}
use better_auth_rs.Store.{World, lift}
use better_auth_rs.Store.Answers.{bind_ok, lift_ok}
use better_auth_rs.Store.Db.{User, Session, Db}
use better_auth_rs.Session.Manager.{SessionConfig}
use better_auth_rs.Session.Token.{require_session}
use better_auth_rs.Admin.{AdminConfig}
use better_auth_rs.Admin.Access.{role_names}
use better_auth_rs.Admin.Access.Grants.{IsAdminUser, Grants, has_permission-Grants}
use better_auth_rs.Admin.Plugin.{
  AdminCall, AdminReply, AdminEnv, permission_of, request_for, authorize, run_authorized, handle,
}

allowed_of : (b : Bool) (e : AuthError) → (if b then ok tt else err e) ≡ ok (tt {0}) → b ≡ true
allowed_of true e h = refl
allowed_of false e h = absurd (err_ne_ok h)

module _ (session_config : SessionConfig) (config : AdminConfig) (env : AdminEnv)
    (split_parse : String → List (Option (String × String))) (session_clock : ℕ → ℕ)
    (req : AuthRequest) (call : AdminCall) (w : World Db) where
  -- A route that answers, under any interference and failure, was called by a signed-in user who is
  -- configured as an administrator, or has a role that is configured to cover the route's action
  -- on its resource.
  pub handle-Grants :
      (reply : AdminReply)
      → (handle session_config config env split_parse session_clock req call w).0 ≡ ok reply
      → (u : User) × (s : Session) × ((require_session split_parse session_config session_clock req
            w).0
          ≡ ok (u, s))
        × (IsAdminUser config (some u.id)
            ⊎ Any
                (Grants config (request_for (permission_of call)))
                (role_names u.role config.default_role))
  unfolding handle run_authorized authorize
  handle-Grants reply h =
      let ((u, s), signed_in, later) =
        bind_ok (require_session split_parse session_config session_clock req)
          (run_authorized session_config config env req call) w reply h in
      let (_, allowed, _) = bind_ok (lift _) _ _ reply later in
      let yes = allowed_of _ _ (lift_ok _ _ _ allowed) in
      (
        u,
        s,
        signed_in,
        (has_permission-Grants (some u.id) u.role config (request_for (permission_of call))).0 yes,
      )
