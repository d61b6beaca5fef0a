-- ===== src/ApiKey/Plugin.antt =====
-- The routes of crates/api/src/plugins/api_key/mod.rs: each finds the caller's session and runs a handler.
-- A body is what the validator makes of it.
pub mod Stays
pub mod Refused
pub mod Isolation
use better_auth_rs.Prelude.{ℕ, String, Option, none, some, List, parse_usize}
use better_auth_rs.Error.{bad_request}
use better_auth_rs.Request.{AuthRequest, Parsed, parsed, rejected, lookup}
use better_auth_rs.Store.{Exec, pure, throw, ◌>>=◌, ◌>>◌}
use better_auth_rs.Store.Db.{User, Session, Db}
use better_auth_rs.Session.Manager.{SessionConfig}
use better_auth_rs.Session.Token.{require_session}
use better_auth_rs.ApiKey.Requests.{
  CreateKeyRequest, UpdateKeyRequest, DeleteKeyRequest, ListKeysQuery, ApiKeyView,
}
use better_auth_rs.ApiKey.Keys.{
  KeyPlugin, Moment, create_key_core, get_key_core, update_key_core, delete_key_core,
}
use better_auth_rs.ApiKey.Keys.Listing.{ListKeysResponse, list_keys_core}

abbrev number : Option String → Option ℕ
number none = none
number (some text) = parse_usize text

-- `ListKeysQuery::from_request`
unfoldable pub query_of : AuthRequest → ListKeysQuery
unfolding lookup
query_of req = record {
  config_id = lookup "configId" req.query;
  organization_id = lookup "organizationId" req.query;
  limit = number (lookup "limit" req.query);
  offset = number (lookup "offset" req.query);
  sort_by = lookup "sortBy" req.query;
  sort_direction = lookup "sortDirection" req.query;
}

module _ (plugin : KeyPlugin) where
  open plugin use {json}

  pub data KeyCall : Type 0 where
    create : Parsed (CreateKeyRequest json) String → KeyCall
    get list : KeyCall
    update : Parsed (UpdateKeyRequest json) String → KeyCall
    delete : Parsed DeleteKeyRequest String → KeyCall

  pub data KeyReply : Type 0 where
    created : String → ApiKeyView json → KeyReply
    shown updated : ApiKeyView json → KeyReply
    listed : ListKeysResponse json → KeyReply
    deleted : KeyReply
    rejected_body : String → KeyReply

  module _ (moment : Moment) where
    abbrev pub Answer : Type 0
    Answer = KeyReply × Option ℕ

    unfoldable pub get_by_id : AuthRequest → String → Option String → Exec Db Answer
    get_by_id req user_id none = throw (bad_request "Query parameter 'id' is required")
    get_by_id req user_id (some id) = do
      (view, last) ← get_key_core plugin moment id (lookup "configId" req.query) user_id
      pure (shown view, last)

    -- The handler after the caller's session was found.
    unfoldable pub handle_for : AuthRequest → KeyCall → String → Exec Db Answer
    unfolding get_by_id
    handle_for req (create (rejected response)) user_id = pure (rejected_body response, moment.last)
    handle_for req (create (parsed body)) user_id = do
      ((key, view), last) ← create_key_core plugin moment body user_id
      pure (created key view, last)
    handle_for req get user_id = get_by_id req user_id (lookup "id" req.query)
    handle_for req list user_id = do
      (response, last) ← list_keys_core plugin moment (query_of req) user_id
      pure (listed response, last)
    handle_for req (update (rejected response)) user_id = pure (rejected_body response, moment.last)
    handle_for req (update (parsed body)) user_id = do
      (view, last) ← update_key_core plugin moment body user_id
      pure (updated view, last)
    handle_for req (delete (rejected response)) user_id = pure (rejected_body response, moment.last)
    handle_for req (delete (parsed body)) user_id = do
      delete_key_core plugin body user_id
      pure (deleted, moment.last)

    module _ (split_parse : String → List (Option (String × String))) (config : SessionConfig) where
      unfoldable pub handle : (ℕ → ℕ) → AuthRequest → KeyCall → Exec Db Answer
      unfolding handle_for
      handle clock req call = do
        (caller, session) ← require_session split_parse config clock req
        handle_for req call caller.id
