-- ===== src/Conversation/Append/Tests.antt =====
-- The theorem on `append_conversation_message` of hushline/routes/message.py at a concrete message.
use hushline.Common.{
  ℕ, zero, suc, pos, ◌≡◌, refl, true, none, some, List, [], ◌∷◌, String, if◌then◌else◌, ◌==◌,
  nat_eq, string_eq, one,
}
use hushline.Model.ChatKey.{ChatKey}
use hushline.Model.User.{User}
use hushline.Model.Samples.{ada}
use hushline.Auth.Store.{page}
use hushline.Conversation.RateLimit.{Settings, unset, consume_rate_limit}
use hushline.Conversation.Threads.{Conversation, Participant, Tables, find_thread}
use hushline.Conversation.Envelope.{
  Json, number, text, object, Fields, no_fields, field, Library, is_envelope, is_bound,
}
use hushline.Conversation.Signature.{is_signed, signing_public_key}
use hushline.Conversation.Append.{Post, handle_append}
use hushline.Conversation.Append.Sealed.{Accepted, handle_append_sound}

abbrev zeros : ℕ → List ℕ
zeros zero = []
zeros (suc n) = 0 ∷ zeros n

abbrev context : Fields
context = field "purpose" (text "hushline.chat.message") (
    field "conversation_public_id" (text "c-4") (
      field "sender_participant_id" (number (pos 8))
        (field "recipient_participant_id" (number (pos 8)) no_fields)))

abbrev envelope : Fields
envelope = field "v" (number (pos 2)) (
    field "algorithm" (text "ECDH-P256-AES-GCM") (
      field "ephemeral_public_key" (text "e") (
        field "iv" (text "i") (
          field "ciphertext" (text "c")
            (field "context" (object context) (field "signature" (text "s") no_fields))))))

abbrev jwk : Fields
jwk =
    field "kty" (text "EC")
      (field "crv" (text "P-256") (field "x" (text "x") (field "y" (text "y") no_fields)))

-- The ids of this example have one digit.
abbrev digit : Json → String
digit (number (pos n)) = if n == 8 then "8" else if n == 4 then "4" else "?"
digit _ = "?"

abbrev library : Library
library = record {
  loads = λ s.
      if s == "sealed"
      then some (object envelope)
      else if s == "jwk"
      then some (object jwk)
      else none;
  dumps = λ j. some "canonical";
  str = digit;
  b64decode = λ s. some (zeros 64);
  urlsafe_b64decode = λ s. some (zeros 32);
  is_public_key = λ x y. true;
  verify = λ x y r s m. m == "canonical";
}

abbrev key : ChatKey
key = record {
  key_version = 1;
  material = record {
    public_key = "pk";
    public_signing_key = "jwk";
    encrypted_private_key = "sealed";
    kdf_algorithm = "PBKDF2-SHA256";
    kdf_params = no_fields;
    kdf_salt = "salt";
    wrapping_algorithm = "AES-GCM";
    recovery_state = none;
  };
  created_at = 1;
  rotated_at = none;
  disabled_at = none;
  recovery_state = none;
}

abbrev users : List User
users = record ada { chat_keys = key ∷ [] } ∷ []

abbrev defaults : Settings
defaults = record {
  participant_window = unset;
  conversation_window = unset;
  user_window = unset;
  participant_max = unset;
  conversation_max = unset;
  user_max = unset;
}

abbrev db : Tables
db = record {
  conversations = record { id = 4; public_id = "c-4" } ∷ [];
  participants =
      record {
        id = 8;
        conversation_id = 4;
        user_id = 7;
        last_read_at = none;
        last_read_message_id = none;
        last_active_at = none;
        deleted_at = none;
      }
      ∷ [];
  messages = [];
  copies = [];
  initial_messages = [];
  attempts = [];
}

abbrev post : Post
post = record {
  now = 5;
  csrf_ok = true;
  message_id = 1;
  copy_id = 1;
  payload =
      some (
        object (field "encrypted_copies" (object (field "8" (text "sealed") no_fields)) no_fields));
}

abbrev after : Tables
after = (handle_append defaults library users post 7 "c-4" db).1

accepted : handle_append defaults library users post 7 "c-4" db ≡ (page 201, after)
unfolding handle_append is_envelope is_bound is_signed signing_public_key consume_rate_limit
accepted = refl

handle_append_sound_example :
    (c : Conversation) × (p : Participant) × (find_thread 7 "c-4" db ≡ one c)
    × Accepted defaults library users post 7 c p db after
handle_append_sound_example =
    handle_append_sound defaults library users post 7 "c-4" db after accepted
