-- ===== src/ChatKeys/Submitted.antt =====
-- hushline/routes/auth.py: `_validated_login_chat_key_payload`, the chat key that a login brings along.
-- The login page's model (Auth/Login) takes its result as LoginRequest.chat_key.
use hushline.Common.{strip, ℕ, Option, none, some, String, if◌then◌else◌, ◌==◌, string_eq}
use hushline.Model.ChatKey.{Payload}
use hushline.Model.Json.{Json, Fields}
use hushline.Conversation.Envelope.{Library}
use hushline.ChatKeys.Payload.Check.{Validated, invalid, valid, validate_chat_key_payload}

abbrev pub cleaned : Validated → Option Payload
cleaned (valid p) = some p
cleaned (invalid error) = none

abbrev pub validated : Library → (Fields → Option String) → ℕ → Option Json → Option Payload
validated lib dumps user none = none
validated lib dumps user (some v) = cleaned (validate_chat_key_payload lib dumps user v)

unfoldable pub login_chat_key : Library → (Fields → Option String) → String → ℕ → Option Payload
login_chat_key lib dumps raw user =
    if strip raw == "" then none else validated lib dumps user (lib.loads (strip raw))
