-- ===== src/Notifications.antt =====
-- Who gets mail about a user's messages: hushline/model/notification_recipient.py and the properties of
-- hushline/model/user.py over a user's recipients. Encrypted columns hold the plain value here.
pub mod Settings
pub mod Mail
pub mod Normal
pub mod Content
pub mod Kept
pub mod Posts
pub mod Texts
pub mod Keys
pub mod Delivery
pub mod Private
mod Tests
use hushline.Common.{
  ℕ, suc, ◌+◌, max, Bool, true, false, not, ◌&&◌, ◌||◌, Option, none, some, List, [], ◌∷◌, ◌++◌,
  String, if◌then◌else◌, ◌==◌, nat_eq, string_eq, option_eq, leb, ltb, any, all, rows, first,
  length, is_none,
}
use hushline.Model.User.{free_tier_id, business_tier_id}

pub record Recipient : Type 0 where
  pub id : ℕ
  pub enabled : Bool
  pub position : ℕ
  pub email : Option String
  pub pgp_key : Option String

-- The columns of a user that mail depends on, and the recipients, ordered by position and id.
pub record Account : Type 0 where
  pub tier_id : Option ℕ
  pub email : Option String
  pub pgp_key : Option String
  pub enable_email_notifications : Bool
  pub email_include_message_content : Bool
  pub email_encrypt_entire_body : Bool
  pub notification_recipients : List Recipient

-- The truth value of a text that may be None.
abbrev pub has_text : Option String → Bool
has_text none = false
has_text (some s) = not (s == "")

abbrev pub head : List Recipient → Option Recipient
head [] = none
head (r ∷ rs) = some r

abbrev pub primary_notification_recipient : Account → Option Recipient
primary_notification_recipient u = head u.notification_recipients

abbrev pub is_reachable : Recipient → Bool
is_reachable r = r.enabled && has_text r.email

abbrev pub enabled_notification_recipients : Account → List Recipient
enabled_notification_recipients u = rows is_reachable u.notification_recipients

abbrev pub or_primary : Option Recipient → Option Recipient → Option Recipient
or_primary none primary = primary
or_primary (some r) primary = some r

abbrev pub preferred_notification_recipient : Account → Option Recipient
preferred_notification_recipient u =
    or_primary (head (enabled_notification_recipients u)) (primary_notification_recipient u)

-- `User.max_notification_recipients`; an unknown tier is logged, and raises in development only.
abbrev pub max_notification_recipients : Account → ℕ
max_notification_recipients u =
    if is_none u.tier_id || u.tier_id == some free_tier_id then 1 else 100

abbrev pub after_last : List Recipient → ℕ
after_last [] = 0
after_last (r ∷ rs) = max (suc r.position) (after_last rs)

unfoldable pub next_notification_recipient_position : Account → ℕ
next_notification_recipient_position u = after_last u.notification_recipients

-- `User.message_recipient_keys`
abbrev pub text_list : Option String → List String
text_list none = []
text_list (some s) = if s == "" then [] else s ∷ []

abbrev pub is_first : Recipient → Bool
is_first r = r.position == 0

abbrev pub primary_keys : Option String → Option Recipient → List String
primary_keys legacy none = text_list legacy
primary_keys legacy (some r) =
    if is_reachable r && has_text r.pgp_key then text_list r.pgp_key else text_list legacy

-- `recipient is not primary_recipient`
abbrev pub is_other : Option Recipient → Recipient → Bool
is_other none r = true
is_other (some p) r = not (r.id == p.id)

abbrev pub keys_of : List Recipient → List String
keys_of [] = []
keys_of (r ∷ rs) = text_list r.pgp_key ++ keys_of rs

-- `list(dict.fromkeys(keys))`
abbrev pub contains : String → List String → Bool
contains s xs = any (λ x. x == s) xs

abbrev pub without_text : String → List String → List String
without_text s xs = rows (λ x. not (x == s)) xs

abbrev pub from_keys : List String → List String
from_keys [] = []
from_keys (s ∷ xs) = s ∷ without_text s (from_keys xs)

unfoldable pub message_recipient_keys : Account → List String
message_recipient_keys u =
    let primary = first is_first u.notification_recipients in
    from_keys (
      primary_keys u.pgp_key primary
      ++ keys_of (rows (is_other primary) (enabled_notification_recipients u)))

-- None, one key, or a list of keys.
pub data Target : Type 0 where
  nobody : Target
  single : String → Target
  several : List String → Target

abbrev pub target_of : List String → Target
target_of [] = nobody
target_of (k ∷ []) = single k
target_of (k ∷ l ∷ ks) = several (k ∷ l ∷ ks)

unfoldable pub message_encryption_target : Account → Target
message_encryption_target u = target_of (message_recipient_keys u)

-- `User.sync_legacy_notification_email`
abbrev pub email_of : Option Recipient → Option String
email_of none = none
email_of (some r) = r.email

abbrev pub pgp_key_of : Option Recipient → Option String
pgp_key_of none = none
pgp_key_of (some r) = r.pgp_key

abbrev pub sync_legacy_notification_email : Account → Account
sync_legacy_notification_email u =
    let r = preferred_notification_recipient u in
    record u { email = email_of r; pgp_key = pgp_key_of r }

-- The setter of `User.pgp_key`: a primary recipient that has no key or the old one gets the new one.
abbrev pub set_primary_key : Option String → Option String → List Recipient → List Recipient
set_primary_key old value [] = []
set_primary_key old value (r ∷ rs) =
    (if is_none r.pgp_key || r.pgp_key == old then record r { pgp_key = value } else r) ∷ rs

unfoldable pub set_pgp_key : Option String → Account → Account
set_pgp_key value u = record u {
  pgp_key = value;
  notification_recipients = set_primary_key u.pgp_key value u.notification_recipients;
}
