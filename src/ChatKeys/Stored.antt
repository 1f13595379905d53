-- ===== src/ChatKeys/Stored.antt =====
-- hushline/chat_key_lifecycle.py and hushline/routes/auth.py: every stored chat key went through the
-- validation, whichever operation put it there.
use hushline.Common.{
  strip, arith, ℕ, ◌≡◌, refl, Option, none, some, List, [], ◌∷◌, String, ◌==◌, string_eq, All,
  if_cases, inl, inr, Option-cases, Bool-cases,
}
use hushline.Model.ChatKey.{Payload, ChatKey}
use hushline.Model.Json.{Json, Fields}
use hushline.Model.User.{User, active_chat_key, is_enabled}
use hushline.Auth.Store.{create_initial_chat_key}
use hushline.Conversation.Envelope.{Library}
use hushline.ChatKeys.Lifecycle.{disable_first, retire_active_chat_key, rewrap_active_chat_key}
use hushline.ChatKeys.Lifecycle.Versions.{
  IsValid, retire-none, retire-some, rewrap-none, rewrap-some, rewrap-active, retire-inactive,
  create_initial_chat_key-IsValid,
}
use hushline.ChatKeys.Payload.Check.{Validated, invalid, valid, validate_chat_key_payload}
use hushline.ChatKeys.Payload.Sound.{IsSafe, validate_chat_key_payload_sound}
use hushline.ChatKeys.Submitted.{login_chat_key, cleaned, validated}

module _ (lib : Library) (dumps : Fields → Option String) where
  validated_sound :
      (user : ℕ) (o : Option Json) {p : Payload}
      → validated lib dumps user o ≡ some p
      → IsSafe lib dumps p
  validated_sound user none e = cc
  validated_sound user (some v) e = go (validate_chat_key_payload lib dumps user v) refl e
    where
      go :
          {p : Payload} (r : Validated)
          → validate_chat_key_payload lib dumps user v ≡ r
          → cleaned r ≡ some p
          → IsSafe lib dumps p
      go {p = p} (valid q) x e =
          let same : q ≡ p = cc e in
          rw (← same) (validate_chat_key_payload_sound lib dumps user v x).2
      go (invalid error) x e = cc

  login_chat_key_sound :
      (raw : String) (user : ℕ) {p : Payload}
      → login_chat_key lib dumps raw user ≡ some p
      → IsSafe lib dumps p
  unfolding login_chat_key
  login_chat_key_sound raw user {p} e =
      elim (if_cases (strip raw == "") none (validated lib dumps user (lib.loads (strip raw)))
        (some p) e) [
          | inl (_, x) ↦ absurd (cc x)
          | inr (_, x) ↦ validated_sound user (lib.loads (strip raw)) x
        ]

  -- What happens to a user's chat keys: a login provisions one, a change of the password replaces the
  -- active one, and a reset retires it.
  pub data Changes : User → User → Type 0 where
    done : {u : User} → Changes u u
    provisioned :
        {u v : User} (now : ℕ) (raw : String)
        → Changes (create_initial_chat_key now (login_chat_key lib dumps raw u.id) u) v
        → Changes u v
    replaced :
        {u v : User} (now : ℕ) (submitted : Json) {p : Payload}
        → validate_chat_key_payload lib dumps u.id submitted ≡ valid p
        → Changes (rewrap_active_chat_key now p u).0 v
        → Changes u v
    retired :
        {u v : User} (now : ℕ) (state : String)
        → Changes (retire_active_chat_key now state u).0 v
        → Changes u v

  abbrev pub IsSafeKey : ChatKey → Type 0
  IsSafeKey k = IsSafe lib dumps k.material

  disable_first-safe :
      (now : ℕ) (state : String) (ks : List ChatKey)
      → All IsSafeKey ks
      → All IsSafeKey (disable_first now state ks)
  disable_first-safe now state [] h = tt
  disable_first-safe now state (k ∷ ks) (h, hs) = elim (Bool-cases (is_enabled k)) [
    | inl e ↦ rw e (h, hs)
    | inr e ↦ rw e (h, disable_first-safe now state ks hs)
  ]

  create-safe :
      (now : ℕ) (o : Option Payload) (u : User)
      → ((p : Payload) → o ≡ some p → IsSafe lib dumps p)
      → All IsSafeKey u.chat_keys
      → All IsSafeKey (create_initial_chat_key now o u).chat_keys
  unfolding create_initial_chat_key
  create-safe now none u safe h = h
  create-safe now (some p) u safe h = elim (Option-cases (active_chat_key u)) [
    | inl n ↦ rw n (safe p refl, h)
    | inr (k, a) ↦ rw a h
  ]

  rewrap-safe :
      (now : ℕ) (p : Payload) (u : User)
      → IsSafe lib dumps p
      → All IsSafeKey u.chat_keys
      → All IsSafeKey (rewrap_active_chat_key now p u).0.chat_keys
  rewrap-safe now p u safe h = elim (Option-cases (active_chat_key u)) [
    | inl n ↦ rw (rewrap-none now p u n) h
    | inr (k, a) ↦
        rw (rewrap-some now p u k a) (safe, disable_first-safe now "rewrapped" u.chat_keys h)
  ]

  retire-safe :
      (now : ℕ) (state : String) (u : User)
      → All IsSafeKey u.chat_keys
      → All IsSafeKey (retire_active_chat_key now state u).0.chat_keys
  retire-safe now state u h = elim (Option-cases (active_chat_key u)) [
    | inl n ↦ rw (retire-none now state u n) h
    | inr (k, a) ↦ rw (retire-some now state u k a) (disable_first-safe now state u.chat_keys h)
  ]

  rewrap-IsValid :
      (now : ℕ) (p : Payload) (u : User)
      → IsValid u.chat_keys
      → IsValid (rewrap_active_chat_key now p u).0.chat_keys
  rewrap-IsValid now p u v = elim (rewrap-active now p u v) [
    | inl (same, _) ↦ rw same v
    | inr (new, _, _, _, ok, _) ↦ ok
  ]

  Changes-keep :
      {u v : User}
      → Changes u v
      → IsValid u.chat_keys
      → All IsSafeKey u.chat_keys
      → IsValid v.chat_keys × All IsSafeKey v.chat_keys
  Changes-keep done k h = (k, h)
  Changes-keep (provisioned {u} now raw rest) k h =
      let o = login_chat_key lib dumps raw u.id in
      Changes-keep rest (create_initial_chat_key-IsValid now o u k)
        (create-safe now o u (λ p e. login_chat_key_sound raw u.id {p = p} e) h)
  Changes-keep (replaced {u} now submitted {p} e rest) k h =
      Changes-keep rest (rewrap-IsValid now p u k)
        (rewrap-safe now p u (validate_chat_key_payload_sound lib dumps u.id submitted e).2 h)
  Changes-keep (retired {u} now state rest) k h =
      Changes-keep rest (retire-inactive now state u k).1 (retire-safe now state u h)

-- Whatever logins, replacements and resets a new user makes, at most one chat key is active, the versions
-- fall, and every key that is stored was read from a payload that passed all checks.
pub chat_keys_stay_safe :
    (lib : Library) (dumps : Fields → Option String) {u v : User}
    → u.chat_keys ≡ []
    → Changes lib dumps u v
    → IsValid v.chat_keys × All (IsSafeKey lib dumps) v.chat_keys
chat_keys_stay_safe lib dumps {u} e steps = Changes-keep lib dumps steps (rw e no_keys) (rw e tt)
  where
    no_keys : IsValid []
    no_keys = record { falling = tt; one_active = omega arith }
