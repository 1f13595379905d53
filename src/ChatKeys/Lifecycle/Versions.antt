-- ===== src/ChatKeys/Lifecycle/Versions.antt =====
-- What replacing and retiring the active chat key do to the versions of a user's keys
-- (hushline/chat_key_lifecycle.py, and `create_initial_chat_key` in hushline/routes/auth.py).
use hushline.Common.{
  ℕ, ◌≡◌, refl, ◌<◌, ◌≤◌, true, false, Option, none, some, List, [], ◌∷◌, String, arith, All, count,
  ◌⊎◌, inl, inr, first, Option-cases,
}
use hushline.Model.ChatKey.{ChatKey, Payload}
use hushline.Model.User.{User, active_chat_key, is_enabled}
use hushline.Auth.Store.{max_version, create_initial_chat_key, initial_key}
use hushline.ChatKeys.Lifecycle.{
  disable_first, retire_active_chat_key, rewrapped, rewrap_active_chat_key,
}

abbrev pub IsNewest : ChatKey → List ChatKey → Type 0
IsNewest k ks = All (λ j. j.key_version < k.key_version) ks

-- The order of the relation `User.chat_keys`.
abbrev pub IsFalling : List ChatKey → Type 0
IsFalling [] = Unit
IsFalling (k ∷ ks) = IsNewest k ks × IsFalling ks

pub record IsValid (keys : List ChatKey) : Type 0 where
  pub falling : IsFalling keys
  pub one_active : count is_enabled keys ≤ 1

IsNewest-below : (k : ChatKey) (ks : List ChatKey) → max_version ks < k.key_version → IsNewest k ks
IsNewest-below k [] h = tt
IsNewest-below k (j ∷ ks) h = (ground arith, IsNewest-below k ks (ground arith))

disable_first-IsNewest :
    (now : ℕ) (state : String) (k : ChatKey) (ks : List ChatKey)
    → IsNewest k ks
    → IsNewest k (disable_first now state ks)
disable_first-IsNewest now state k [] h = tt
disable_first-IsNewest now state k (j ∷ ks) h =
    let rest = disable_first-IsNewest now state k ks h.1 in ground arith

disable_first-IsFalling :
    (now : ℕ) (state : String) (ks : List ChatKey)
    → IsFalling ks
    → IsFalling (disable_first now state ks)
disable_first-IsFalling now state [] h = tt
disable_first-IsFalling now state (k ∷ ks) h =
    let rest = disable_first-IsFalling now state ks h.1 in
    let top = disable_first-IsNewest now state k ks h.0 in ground arith

disable_first-count :
    (now : ℕ) (state : String) (ks : List ChatKey)
    → count is_enabled ks ≤ 1
    → count is_enabled (disable_first now state ks) ≡ 0
disable_first-count now state [] h = refl
disable_first-count now state (k ∷ ks) h =
    let rest = disable_first-count now state ks in ground arith

first-none : (ks : List ChatKey) → count is_enabled ks ≡ 0 → first is_enabled ks ≡ none
first-none [] h = refl
first-none (k ∷ ks) h = let rest = first-none ks in ground arith

count-none : (ks : List ChatKey) → first is_enabled ks ≡ none → count is_enabled ks ≡ 0
count-none [] h = refl
count-none (k ∷ ks) h = let rest = count-none ks in ground arith

disable_first-IsValid :
    (now : ℕ) (state : String) (ks : List ChatKey)
    → IsValid ks
    → IsValid (disable_first now state ks)
disable_first-IsValid now state ks v = record {
  falling = disable_first-IsFalling now state ks v.falling;
  one_active = rw (disable_first-count now state ks v.one_active) (ground arith);
}

pub retire-none :
    (now : ℕ) (state : String) (u : User)
    → active_chat_key u ≡ none
    → retire_active_chat_key now state u ≡ (u, false)
unfolding retire_active_chat_key
retire-none now state u e = ground arith

pub retire-some :
    (now : ℕ) (state : String) (u : User) (k : ChatKey)
    → active_chat_key u ≡ some k
    → retire_active_chat_key now state u
      ≡ (record u { chat_keys = disable_first now state u.chat_keys }, true)
unfolding retire_active_chat_key
retire-some now state u k e = rw (retire_active_chat_key, e) refl

-- Retiring leaves no active key, and keeps the versions of the keys in order.
pub retire-inactive :
    (now : ℕ) (state : String) (u : User)
    → IsValid u.chat_keys
    → (active_chat_key (retire_active_chat_key now state u).0 ≡ none)
      × IsValid (retire_active_chat_key now state u).0.chat_keys
retire-inactive now state u v = elim (Option-cases (active_chat_key u)) [
  | inl none_active ↦ rw (retire-none now state u none_active) (none_active, v)
  | inr (k, active) ↦ rw (retire-some now state u k active) (
    first-none (disable_first now state u.chat_keys)
        (disable_first-count now state u.chat_keys v.one_active),
    disable_first-IsValid now state u.chat_keys v,
  )
]

pub rewrap-none :
    (now : ℕ) (p : Payload) (u : User)
    → active_chat_key u ≡ none
    → rewrap_active_chat_key now p u ≡ (u, none)
unfolding rewrap_active_chat_key
rewrap-none now p u e = rw (rewrap_active_chat_key, e) refl

pub rewrap-some :
    (now : ℕ) (p : Payload) (u : User) (k : ChatKey)
    → active_chat_key u ≡ some k
    → let old = disable_first now "rewrapped" u.chat_keys in
      rewrap_active_chat_key now p u
      ≡ (record u { chat_keys = rewrapped now p old ∷ old }, some (rewrapped now p old))
unfolding rewrap_active_chat_key
rewrap-some now p u k e = rw (rewrap_active_chat_key, e) refl

rewrapped-IsValid :
    (now : ℕ) (p : Payload) (ks : List ChatKey)
    → IsValid ks
    → let old = disable_first now "rewrapped" ks in
      IsValid (rewrapped now p old ∷ old) × IsNewest (rewrapped now p old) old
rewrapped-IsValid now p ks v =
    let old = disable_first now "rewrapped" ks in
    let newest = IsNewest-below (rewrapped now p old) old (ground arith) in
    let others = disable_first-count now "rewrapped" ks v.one_active in
    (
      record {
        falling = (newest, disable_first-IsFalling now "rewrapped" ks v.falling);
        one_active = ground arith;
      },
      newest,
    )

-- Replacing the active key puts the new one in its place: the new key is the active one, its
-- version is above all others, and the user's keys stay in order with one of them enabled. Without
-- an active key nothing changes.
pub rewrap-active :
    (now : ℕ) (p : Payload) (u : User)
    → IsValid u.chat_keys
    → (rewrap_active_chat_key now p u ≡ (u, none)) × (active_chat_key u ≡ none)
      ⊎ ((new : ChatKey) × ((rewrap_active_chat_key now p u).1 ≡ some new)
          × (active_chat_key (rewrap_active_chat_key now p u).0 ≡ some new)
          × (new.material ≡ p)
          × IsValid (rewrap_active_chat_key now p u).0.chat_keys
          × IsNewest new (disable_first now "rewrapped" u.chat_keys))
rewrap-active now p u v = elim (Option-cases (active_chat_key u)) [
  | inl none_active ↦ inl (rewrap-none now p u none_active, none_active)
  | inr (k, active) ↦
      let old = disable_first now "rewrapped" u.chat_keys in
      let (valid, newest) = rewrapped-IsValid now p u.chat_keys v in
      let done = rewrap-some now p u k active in
      inr (rewrapped now p old, rw done refl, rw done refl, refl, rw done valid, newest)
]

-- The first key of a user, or the next one after the last was retired, comes in with a fresh
-- version, and a user that has an active key keeps it.
pub create_initial_chat_key-IsValid :
    (now : ℕ) (p : Option Payload) (u : User)
    → IsValid u.chat_keys
    → IsValid (create_initial_chat_key now p u).chat_keys
unfolding create_initial_chat_key
create_initial_chat_key-IsValid now none u v = v
create_initial_chat_key-IsValid now (some p) u v = elim (Option-cases (active_chat_key u)) [
  | inl none_active ↦ rw none_active record {
    falling =
        (IsNewest-below (initial_key now p u.chat_keys) u.chat_keys (ground arith), v.falling);
    one_active = rw (count-none u.chat_keys none_active) (ground arith);
  }
  | inr (k, active) ↦ rw active v
]
