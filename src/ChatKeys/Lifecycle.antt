-- ===== src/ChatKeys/Lifecycle.antt =====
-- hushline/chat_key_lifecycle.py: retiring the active chat key of a user, and replacing it.
pub mod Versions
use hushline.Common.{
  ℕ, ◌+◌, Bool, true, false, Option, none, some, List, [], ◌∷◌, String, if◌then◌else◌, is_none,
}
use hushline.Model.ChatKey.{ChatKey, Payload}
use hushline.Model.User.{User, active_chat_key, is_enabled}
use hushline.Auth.Store.{max_version}

-- The assignments to the active key, which is the first enabled one.
abbrev pub disable_first : ℕ → String → List ChatKey → List ChatKey
disable_first now state [] = []
disable_first now state (k ∷ ks) =
    if is_enabled k
    then record k { disabled_at = some now; recovery_state = some state } ∷ ks
    else k ∷ disable_first now state ks

unfoldable pub retire_active_chat_key : ℕ → String → User → User × Bool
retire_active_chat_key now state user = elim (active_chat_key user) [
  | none ↦ (user, false)
  | some k ↦ (record user { chat_keys = disable_first now state user.chat_keys }, true)
]

-- The new key, which comes first since its version is the highest.
abbrev rewrapped : ℕ → Payload → List ChatKey → ChatKey
rewrapped now p keys = record {
  key_version = max_version keys + 1;
  material = p;
  created_at = now;
  rotated_at = some now;
  disabled_at = none;
  recovery_state = p.recovery_state;
}

unfoldable pub rewrap_active_chat_key : ℕ → Payload → User → User × Option ChatKey
rewrap_active_chat_key now p user =
    let old = disable_first now "rewrapped" user.chat_keys in
    let new = rewrapped now p old in
    elim (active_chat_key user) [
      | none ↦ (user, none)
      | some k ↦ (record user { chat_keys = new ∷ old }, some new)
    ]
