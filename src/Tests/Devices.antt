-- ===== src/Tests/Devices.antt =====
-- The theorems on device codes at work.
use better_auth_rs.Prelude.{
  ◌+◌, String, none, some, [], ◌≡◌, ◌≢◌, ◌⊎◌, refl, arith, eq_iff, without_char,
}
use better_auth_rs.Error.{ok}
use better_auth_rs.Request.{lookup, parsed}
use better_auth_rs.Store.{alone, query, ◌>>=◌}
use better_auth_rs.Store.Rely.{Relies}
use better_auth_rs.Store.Table.{find, count, delete_where, update_where}
use better_auth_rs.Store.Db.{User, Session, DeviceCode, Db}
use better_auth_rs.Session.Issue.{get_user_by_id, issue_user_session}
use better_auth_rs.Session.Token.{require_session, extract_session_token}
use better_auth_rs.Session.Manager
use better_auth_rs.Session.Statements as SessionStatements
use better_auth_rs.Device.Codes.{token_reply, action_reply, DeviceTokenRequest, approve, approved}
use better_auth_rs.Device.Statements
use better_auth_rs.Device.Statements.{has_id}
use better_auth_rs.Device.Lifecycle.{Evolves, Evolves-refl, IsKey, row}
use better_auth_rs.Device.Config.{UrlCrate}
use better_auth_rs.Device.Token.{handle_device_token, redeem_for}
use better_auth_rs.Device.Token.Redemption.{
  IsRedeemable, handle_device_token_sound, redeem_for_once,
}
use better_auth_rs.Device.Decision.{handle_device_decision}
use better_auth_rs.Device.Decision.Soundness.{IsDecidable, handle_device_decision_sound}
use better_auth_rs.Device.Plugin.{Call, device_token, handle}
use better_auth_rs.Device.Plugin.Contract.{handle-Evolves, handle-keeps_approval}
use better_auth_rs.Tests.{
  db, server, plugin, random, request, clock, visited, alice, approved_code, two_rows,
}

abbrev body : DeviceTokenRequest
body = record {
  grant_type = "urn:ietf:params:oauth:grant-type:device_code";
  device_code = "device";
  client_id = "tv";
}

relies :
    (c : DeviceCode)
    → (Statements.get_device_code_by_device_code "device" visited).0 ≡ ok (some c)
    → Relies (Evolves c.id) (Statements.get_device_code_by_device_code "device" visited).1.schedule
unfolding Statements.get_device_code_by_device_code query
relies c found = tt

keys : (id : String) → IsKey id db
unfolding count
keys id = two_rows "row" "claimed" id row_ne_claimed
  where
    row_ne_claimed : ◌≢◌ {A = String} "row" "claimed"
    row_ne_claimed = ground (arith, eq_iff "row" "claimed")

given :
    (handle_device_token server plugin clock random request (parsed body) visited).0
    ≡ ok (token_reply "session_fresh" 0 "")
unfolding handle_device_token Statements.get_device_code_by_device_code
    Statements.update_device_code Statements.delete_device_code_if_status get_user_by_id
    issue_user_session Manager.create_session SessionStatements.create_session lookup ◌>>=◌ query
    find count delete_where update_where
given = refl

keys_then :
    (c : DeviceCode)
    → (Statements.get_device_code_by_device_code "device" visited).0 ≡ ok (some c)
    → IsKey c.id (Statements.get_device_code_by_device_code "device" visited).1.db
unfolding Statements.get_device_code_by_device_code query
keys_then c found = keys c.id

handle_device_token_sound_example :
    (c : DeviceCode) × ((Statements.get_device_code_by_device_code "device" visited).0
      ≡ ok (some c))
    × IsRedeemable server plugin (clock 0) "tv" c
    × (row c.id (handle_device_token server plugin clock random request (parsed body) visited).1.db
        ≡ none)
handle_device_token_sound_example =
    handle_device_token_sound server plugin clock random request body visited "session_fresh" 0 ""
      relies keys_then given

-- Another poll has taken the row.
abbrev redeemed : Db
redeemed = record db { device_codes = [] }

gone : IsKey "row" redeemed × (row "row" redeemed ≡ none)
unfolding count find
gone = (omega arith, refl)

redeem_for_once_example :
    (redeem_for server plugin clock random request approved_code "alice"
      (some alice)
      (alone redeemed)).0
    ≢ ok (token_reply "session_fresh" 0 "")
redeem_for_once_example =
    redeem_for_once server plugin clock random request approved_code "alice" (some alice)
      (alone redeemed) "session_fresh" 0 "" tt gone

abbrev url : UrlCrate
url = record { parse = λ s. some s; join = λ base s. some s; append_user_code = λ s c. s }

fresh_ne_row : random.row_id ≢ "row"
fresh_ne_row = ground (arith, eq_iff "fresh" "row")

abbrev poll : Call
poll = device_token request (parsed body)

handle-Evolves_example : Evolves "row" db (handle url server plugin clock random poll visited).1.db
handle-Evolves_example =
    handle-Evolves url server plugin "row" clock random poll visited fresh_ne_row (keys "row")
      (Evolves-refl "row", tt)

is_approved : row "row" db ≡ some approved_code
unfolding find
is_approved = refl

handle-keeps_approval_example :
    (row "row" (handle url server plugin clock random poll visited).1.db ≡ none)
    ⊎ ((r' : DeviceCode) × (row "row" (handle url server plugin clock random poll visited).1.db
          ≡ some r')
        × (r'.status ≡ approved)
        × (r'.user_id ≡ some "alice"))
handle-keeps_approval_example =
    handle-keeps_approval url server plugin "row" clock random poll visited approved_code "alice"
      fresh_ne_row (keys "row") (Evolves-refl "row", tt) is_approved refl refl

decided :
    (handle_device_decision server clock request (parsed "JKLM-NPQR") approve visited).0
    ≡ ok action_reply
unfolding handle_device_decision require_session extract_session_token Manager.get_session
    SessionStatements.get_session Statements.get_device_code_by_user_code
    Statements.update_device_code_if_status lookup ◌>>=◌ query find count update_where
decided = refl

handle_device_decision_sound_example :
    (u : User) × (s : Session) × (c : DeviceCode) × ((require_session server.split_parse
        server.session
        (λ n. clock (n + 1))
        request
        visited).0
      ≡ ok (u, s))
    × ((Statements.get_device_code_by_user_code
          (without_char b'-' "JKLM-NPQR")
          (require_session server.split_parse server.session
            (λ n. clock (n + 1))
            request
            visited).1).0
        ≡ ok (some c))
    × IsDecidable (clock 0) u c
handle_device_decision_sound_example =
    handle_device_decision_sound server clock approve request "JKLM-NPQR" visited decided
