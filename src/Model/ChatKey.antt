-- ===== src/Model/ChatKey.antt =====
-- hushline/model/chat_key.py: a row of `chat_keys`, and the payload that provisions one.
-- Times are whole numbers of ticks of the server's clock.
use hushline.Common.{ℕ, Option, String}
use hushline.Model.Json.{Fields}

-- The cleaned payload that `validate_chat_key_payload` returns.
pub record Payload : Type 0 where
  pub public_key : String
  pub public_signing_key : String
  pub encrypted_private_key : String
  pub kdf_algorithm : String
  pub kdf_params : Fields
  pub kdf_salt : String
  pub wrapping_algorithm : String
  pub recovery_state : Option String

pub record ChatKey : Type 0 where
  pub key_version : ℕ
  pub material : Payload
  pub created_at : ℕ
  pub rotated_at : Option ℕ
  pub disabled_at : Option ℕ
  pub recovery_state : Option String
