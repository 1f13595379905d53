-- ===== src/Conversation/RateLimit.antt =====
-- hushline/routes/message.py: `_consume_conversation_message_rate_limit`, and its rows of
-- hushline/model/chat_rate_limit_attempt.py. The advisory locks make the calls for one bucket
-- follow each other, so a run is a sequence of calls. Times are in microseconds.
pub mod Buckets
pub mod Bounds
use hushline.Common.{
  ℕ, ◌+◌, ◌*◌, Bool, false, ◌&&◌, ◌||◌, not, Option, none, some, List, ◌∷◌, String, if◌then◌else◌,
  ◌==◌, nat_eq, leb, rows, count, max, ℤ, pos, negsuc,
}

pub record Attempt : Type 0 where
  pub conversation_id : ℕ
  pub sender_participant_id : ℕ
  pub user_id : ℕ
  pub created_at : ℕ

-- A value of the configuration: not set, a value that `int` takes, or one that it refuses.
pub data Setting : Type 0 where
  unset : Setting
  number : ℤ → Setting
  refused : Setting

-- `_conversation_rate_limit_config`
abbrev pub rate_limit_config : Setting → ℤ → ℤ
rate_limit_config unset default = default
rate_limit_config (number n) default = n
rate_limit_config refused default = default

pub record Settings : Type 0 where
  pub participant_window : Setting
  pub conversation_window : Setting
  pub user_window : Setting
  pub participant_max : Setting
  pub conversation_max : Setting
  pub user_max : Setting

-- The call's arguments: the thread, the participant, the user and the clock.
pub record Sender : Type 0 where
  pub thread : ℕ
  pub participant : ℕ
  pub user : ℕ
  pub now : ℕ

abbrev second : ℕ
second = 1000000

-- `max(seconds, 1)`, in microseconds
abbrev window : ℤ → ℕ
window (pos n) = max n 1 * second
window (negsuc n) = second

abbrev pub participant_window : Settings → ℕ
participant_window s = window (rate_limit_config s.participant_window (pos 60))

abbrev pub conversation_window : Settings → ℕ
conversation_window s = window (rate_limit_config s.conversation_window (pos 60))

abbrev pub user_window : Settings → ℕ
user_window s = window (rate_limit_config s.user_window (pos 3600))

abbrev pub participant_max : Settings → ℤ
participant_max s = rate_limit_config s.participant_max (pos 10)

abbrev pub conversation_max : Settings → ℤ
conversation_max s = rate_limit_config s.conversation_max (pos 30)

abbrev pub user_max : Settings → ℤ
user_max s = rate_limit_config s.user_max (pos 200)

-- `created_at >= now - window`
abbrev pub is_within : ℕ → ℕ → Attempt → Bool
is_within w now a = leb now (a.created_at + w)

abbrev pub by_participant : ℕ → ℕ → Attempt → Bool
by_participant participant thread a =
    a.sender_participant_id == participant && a.conversation_id == thread

abbrev pub in_conversation : ℕ → Attempt → Bool
in_conversation thread a = a.conversation_id == thread

abbrev pub by_user : ℕ → Attempt → Bool
by_user user a = a.user_id == user

abbrev pub recent : (Attempt → Bool) → ℕ → ℕ → List Attempt → ℕ
recent p w now attempts = count (λ a. p a && is_within w now a) attempts

-- `limit > 0 and count >= limit`
abbrev pub is_limited : ℤ → ℕ → Bool
is_limited (pos n) c = not (leb n 0) && leb n c
is_limited (negsuc n) c = false

abbrev pub oldest : Settings → ℕ
oldest s = max (participant_window s) (max (conversation_window s) (user_window s))

abbrev pub limited : Settings → Sender → List Attempt → Bool
limited s c kept =
    is_limited (participant_max s)
      (recent (by_participant c.participant c.thread) (participant_window s) c.now kept)
    || (is_limited (conversation_max s)
          (recent (in_conversation c.thread) (conversation_window s) c.now kept)
        || is_limited (user_max s) (recent (by_user c.user) (user_window s) c.now kept))

abbrev pub attempt_of : Sender → Attempt
attempt_of c = record {
  conversation_id = c.thread;
  sender_participant_id = c.participant;
  user_id = c.user;
  created_at = c.now;
}

-- Whether the sender is limited, and the attempts afterwards; the newest comes first.
unfoldable pub consume_rate_limit : Settings → Sender → List Attempt → Bool × List Attempt
consume_rate_limit s c attempts =
    let kept = rows (is_within (oldest s) c.now) attempts in
    let is = limited s c kept in (is, if is then kept else attempt_of c ∷ kept)
