-- ===== src/Device/Codes.antt =====
-- The texts of device_authorization/mod.rs, its replies (types.rs) and its generated user codes.
use Prim.Native.Char.{Char}
use Prim.Native.String.{String, [], ◌∷◌}
use better_auth_rs.Prelude.{ℕ, zero, suc, ◌%◌, Option, none, some, unwrap_or, List}

abbrev pub device_grant_type : String
device_grant_type = "urn:ietf:params:oauth:grant-type:device_code"

abbrev pub pending : String
pending = "pending"

abbrev pub approved : String
approved = "approved"

abbrev pub denied : String
denied = "denied"

-- Every response struct of the plugin, and the response for a body that does not validate.
pub data Reply : Type 0 where
  error_reply : (status : ℕ) (error error_description : String) → Reply
  code_reply :
      (device_code user_code verification_uri verification_uri_complete : String)
      (expires_in interval : ℕ)
      → Reply
  token_reply : (access_token : String) (expires_in : ℕ) (scope : String) → Reply
  verify_reply : (user_code status : String) → Reply
  action_reply : Reply
  rejected_body : (message : String) → Reply

pub record DeviceCodeRequest : Type 0 where
  pub client_id : String
  pub scope : Option String

pub record DeviceTokenRequest : Type 0 where
  pub grant_type : String
  pub device_code : String
  pub client_id : String

pub data DeviceDecision : Type 0 where
  approve deny : DeviceDecision

abbrev pub decision_status : DeviceDecision → String
decision_status approve = approved
decision_status deny = denied

abbrev pub forbidden_message : DeviceDecision → String
forbidden_message approve = "You are not authorized to approve this device authorization"
forbidden_message deny = "You are not authorized to deny this device authorization"

-- `DEFAULT_USER_CODE_CHARSET`, 32 characters
abbrev pub charset : String
charset = "ABCDEFGHJKLMNPQRSTUVWXYZ23456789"

pub char_at : String → ℕ → Option Char
char_at [] i = none
char_at (c ∷ s) zero = some c
char_at (c ∷ s) (suc i) = char_at s i

-- One character for each random byte.
unfoldable pub default_generate_user_code : List ℕ → String
unfolding char_at
default_generate_user_code List.[] = []
default_generate_user_code (List.◌∷◌ b bytes) =
    unwrap_or (char_at charset (b % 32)) "A" ∷ default_generate_user_code bytes
