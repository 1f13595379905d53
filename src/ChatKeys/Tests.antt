-- ===== src/ChatKeys/Tests.antt =====
-- The theorems on chat keys at a concrete user.
use hushline.Common.{ℕ, ◌≡◌, ◌⊎◌, Option, none, some, [], ◌∷◌, arith}
use hushline.Model.Json.{no_fields}
use hushline.Model.ChatKey.{Payload, ChatKey}
use hushline.Model.User.{User, active_chat_key}
use hushline.Model.Samples.{ada}
use hushline.Auth.Store.{create_initial_chat_key}
use hushline.ChatKeys.Lifecycle.{disable_first, retire_active_chat_key, rewrap_active_chat_key}
use hushline.ChatKeys.Lifecycle.Versions.{
  IsNewest, IsValid, retire-inactive, rewrap-active, create_initial_chat_key-IsValid,
}

abbrev payload : Payload
payload = record {
  public_key = "pk";
  public_signing_key = "sk";
  encrypted_private_key = "sealed";
  kdf_algorithm = "PBKDF2-SHA256";
  kdf_params = no_fields;
  kdf_salt = "salt";
  wrapping_algorithm = "AES-GCM";
  recovery_state = none;
}

abbrev key : ℕ → Option ℕ → ChatKey
key v disabled = record {
  key_version = v;
  material = payload;
  created_at = 1;
  rotated_at = none;
  disabled_at = disabled;
  recovery_state = none;
}

abbrev owner : User
owner = record ada { chat_keys = key 2 none ∷ key 1 (some 3) ∷ [] }

owner-IsValid : IsValid owner.chat_keys
owner-IsValid = record { falling = ((omega arith, tt), (tt, tt)); one_active = omega arith }

retired_key_is_inactive :
    (active_chat_key (retire_active_chat_key 9 "lost" owner).0 ≡ none)
    × IsValid (retire_active_chat_key 9 "lost" owner).0.chat_keys
retired_key_is_inactive = retire-inactive 9 "lost" owner owner-IsValid

key_is_replaced :
    (rewrap_active_chat_key 9 payload owner ≡ (owner, none)) × (active_chat_key owner ≡ none)
    ⊎ ((new : ChatKey) × ((rewrap_active_chat_key 9 payload owner).1 ≡ some new)
        × (active_chat_key (rewrap_active_chat_key 9 payload owner).0 ≡ some new)
        × (new.material ≡ payload)
        × IsValid (rewrap_active_chat_key 9 payload owner).0.chat_keys
        × IsNewest new (disable_first 9 "rewrapped" owner.chat_keys))
key_is_replaced = rewrap-active 9 payload owner owner-IsValid

initial_key-IsValid : IsValid (create_initial_chat_key 9 (some payload) owner).chat_keys
initial_key-IsValid = create_initial_chat_key-IsValid 9 (some payload) owner owner-IsValid
