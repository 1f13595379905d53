-- ===== src/Conversation/RateLimit/Bounds.antt =====
-- How many messages the rate limit lets through (hushline/routes/message.py).
use hushline.Common.{ℕ, ◌≡◌, ◌⊎◌, ◌≤◌, true, false, List, [], ◌∷◌, nat_eq, rows, arith, ◌↔◌}
use hushline.Conversation.RateLimit.{
  Attempt, Settings, Sender, is_within, recent, is_limited, oldest, limited, consume_rate_limit,
  by_participant, in_conversation, by_user, participant_window, conversation_window, user_window,
  participant_max, conversation_max, user_max,
}
use hushline.Conversation.RateLimit.Buckets.{
  bucket-step, is_over, or-true, own-conversation, own-participant, own-user, recent-rows,
}

-- Seen at `now`, no bucket holds more attempts than its limit.
pub record IsBounded (s : Settings) (now : ℕ) (xs : List Attempt) : Type 0 where
  pub participant :
      (q t : ℕ)
      → is_over (participant_max s) (recent (by_participant q t) (participant_window s) now xs)
        ≡ false
  pub conversation :
      (t : ℕ)
      → is_over (conversation_max s) (recent (in_conversation t) (conversation_window s) now xs)
        ≡ false
  pub user : (u : ℕ) → is_over (user_max s) (recent (by_user u) (user_window s) now xs) ≡ false

-- One call, from any state that is within the limits, leaves one that is.
pub consume_rate_limit-IsBounded :
    (s : Settings) (now : ℕ) (c : Sender) (xs : List Attempt)
    → now ≤ c.now
    → IsBounded s now xs
    → IsBounded s c.now (consume_rate_limit s c xs).1
unfolding consume_rate_limit
consume_rate_limit-IsBounded s now c xs h b =
    let kept = rows (is_within (oldest s) c.now) xs in
    let full = limited s c kept in
    record {
      participant = λ q t.
          bucket-step (by_participant q t) (participant_max s) (participant_window s) (oldest s) now
            c xs full h (ground arith) (b.participant q t) (own-participant s c kept q t);
      conversation = λ t.
          bucket-step (in_conversation t) (conversation_max s) (conversation_window s) (oldest s)
            now c xs full h (ground arith) (b.conversation t) (own-conversation s c kept t);
      user = λ u.
          bucket-step (by_user u) (user_max s) (user_window s) (oldest s) now c xs full h
            (ground arith) (b.user u) (own-user s c kept u);
    }

abbrev pub consume_all : Settings → List Sender → List Attempt → List Attempt
consume_all s [] xs = xs
consume_all s (c ∷ cs) xs = consume_all s cs (consume_rate_limit s c xs).1

-- The clock does not run backwards.
abbrev pub IsOrdered : ℕ → List Sender → Type 0
IsOrdered now [] = Unit
IsOrdered now (c ∷ cs) = (now ≤ c.now) × IsOrdered c.now cs

abbrev pub last : ℕ → List Sender → ℕ
last now [] = now
last now (c ∷ cs) = last c.now cs

-- However the senders take turns, as long as the clock does not run backwards, no participant of a
-- conversation, no conversation and no user has more messages in its window than its limit.
pub consume_all-IsBounded :
    (s : Settings) (now : ℕ) (cs : List Sender) (xs : List Attempt)
    → IsOrdered now cs
    → IsBounded s now xs
    → IsBounded s (last now cs) (consume_all s cs xs)
consume_all-IsBounded s now [] xs o b = b
consume_all-IsBounded s now (c ∷ cs) xs o b =
    consume_all-IsBounded s c.now cs (consume_rate_limit s c xs).1 o.1
      (consume_rate_limit-IsBounded s now c xs o.0 b)

-- A sender is turned away exactly if one of its three buckets is full.
pub consume_rate_limit_iff :
    (s : Settings) (c : Sender) (xs : List Attempt)
    → ((consume_rate_limit s c xs).0 ≡ true) ↔ (
        (is_limited
            (participant_max s)
            (recent (by_participant c.participant c.thread) (participant_window s) c.now xs)
          ≡ true)
        ⊎ (is_limited
              (conversation_max s)
              (recent (in_conversation c.thread) (conversation_window s) c.now xs)
            ≡ true)
        ⊎ (is_limited (user_max s) (recent (by_user c.user) (user_window s) c.now xs) ≡ true))
unfolding consume_rate_limit
consume_rate_limit_iff s c xs =
    let a =
      recent-rows (by_participant c.participant c.thread) (participant_window s) (oldest s) c.now xs
        (ground arith) in
    let b =
      recent-rows (in_conversation c.thread) (conversation_window s) (oldest s) c.now xs
        (ground arith) in
    let d = recent-rows (by_user c.user) (user_window s) (oldest s) c.now xs (ground arith) in
    rw (a, b, d)
      (or-true
        (is_limited (participant_max s)
          (recent (by_participant c.participant c.thread) (participant_window s) c.now xs))
        (is_limited (conversation_max s)
          (recent (in_conversation c.thread) (conversation_window s) c.now xs))
        (is_limited (user_max s) (recent (by_user c.user) (user_window s) c.now xs)))
