-- ===== src/Notifications/Settings.antt =====
-- hushline/settings/notifications.py: the pages that change a user's recipients and what mail to them
-- holds; and handle_pgp_key_form of hushline/settings/common.py.
use hushline.Common.{
  ℕ, suc, Bool, true, false, not, ◌&&◌, ◌||◌, Option, none, some, List, [], ◌∷◌, ◌++◌, String,
  if◌then◌else◌, ◌==◌, nat_eq, string_eq, leb, ltb, all, rows, first, length, strip,
}
use hushline.Notifications.{
  Recipient, Account, enabled_notification_recipients, max_notification_recipients,
  next_notification_recipient_position, sync_legacy_notification_email, set_pgp_key,
}

-- The calls of GPG.
pub record Gpg : Type 0 where
  pub is_valid_pgp_key : String → Bool
  pub can_encrypt_with_pgp_key : String → Bool

-- A redirection after a commit, a page with status 400, and 404; the account is as it is stored.
pub data Reply : Type 0 where
  saved : Account → Reply
  refused not_found limit_reached : Reply

-- `sorted(…, key=lambda row: (row.position, row.id))`
abbrev pub comes_before : Recipient → Recipient → Bool
comes_before a b = ltb a.position b.position || a.position == b.position && leb a.id b.id

abbrev pub insert_recipient : Recipient → List Recipient → List Recipient
insert_recipient r [] = r ∷ []
insert_recipient r (s ∷ rs) = if comes_before r s then r ∷ s ∷ rs else s ∷ insert_recipient r rs

abbrev pub sorted : List Recipient → List Recipient
sorted [] = []
sorted (r ∷ rs) = insert_recipient r (sorted rs)

abbrev pub enumerate : ℕ → List Recipient → List Recipient
enumerate i [] = []
enumerate i (r ∷ rs) = record r { position = i } ∷ enumerate (suc i) rs

unfoldable pub normalize_recipient_positions : Account → Account
normalize_recipient_positions u = record u {
  notification_recipients = enumerate 0 (sorted u.notification_recipients);
}

abbrev pub is_empty : List Recipient → Bool
is_empty [] = true
is_empty (r ∷ rs) = false

abbrev pub switch_off : Account → Account
switch_off u = record u {
  enable_email_notifications = false;
  email_include_message_content = false;
}

unfoldable pub normalize_notification_state : Account → Account
normalize_notification_state u =
    let v = sync_legacy_notification_email u in
    if is_empty (enabled_notification_recipients v) then switch_off v else v

abbrev pub recipient_key_is_encryptable : Gpg → String → Bool
recipient_key_is_encryptable gpg k = gpg.is_valid_pgp_key k && gpg.can_encrypt_with_pgp_key k

abbrev pub has_usable_key : Gpg → Option String → Bool
has_usable_key gpg none = false
has_usable_key gpg (some k) = not (k == "") && recipient_key_is_encryptable gpg k

unfoldable pub enabled_recipients_support_content : Gpg → Account → Bool
enabled_recipients_support_content gpg u =
    let rs = enabled_notification_recipients u in
    not (is_empty rs) && all (λ (r : Recipient). has_usable_key gpg r.pgp_key) rs

-- NotificationRecipientForm: whether its validators pass, the texts, and the checkbox if the request
-- has it.
pub record RecipientForm : Type 0 where
  pub is_valid : Bool
  pub recipient_email : String
  pub recipient_pgp_key : String
  pub recipient_enabled : Option Bool

abbrev pub is_checked : Option Bool → Bool
is_checked none = false
is_checked (some b) = b

unfoldable pub validate_recipient_form : Gpg → Account → RecipientForm → Bool
validate_recipient_form gpg u form =
    let k = strip form.recipient_pgp_key in
    (k == "" || recipient_key_is_encryptable gpg k)
    && not (u.email_include_message_content && is_checked form.recipient_enabled && k == "")

abbrev pub or_none : String → Option String
or_none s = if s == "" then none else some s

abbrev pub enabled_after : Option Bool → Bool → Bool
enabled_after none enabled = enabled
enabled_after (some b) enabled = b

abbrev pub filled : RecipientForm → Recipient → Recipient
filled form r = record r {
  email = some (strip form.recipient_email);
  pgp_key = or_none (strip form.recipient_pgp_key);
  enabled = enabled_after form.recipient_enabled r.enabled;
}

abbrev pub replace : ℕ → (Recipient → Recipient) → List Recipient → List Recipient
replace i f [] = []
replace i f (r ∷ rs) = if r.id == i then f r ∷ rs else r ∷ replace i f rs

abbrev pub normalize : Account → Account
normalize u = normalize_notification_state (normalize_recipient_positions u)

abbrev pub is_accepted : Gpg → Account → RecipientForm → Bool
is_accepted gpg u form = form.is_valid && validate_recipient_form gpg u form

-- `_save_recipient` without and with a recipient; a new one is created enabled, and then set to what
-- the form says.
abbrev pub new_recipient : ℕ → RecipientForm → Account → Recipient
new_recipient new_id form u = filled form (record {
  id = new_id;
  enabled = is_checked form.recipient_enabled;
  position = next_notification_recipient_position u;
  email = none;
  pgp_key = none;
})

unfoldable pub save_new_recipient : Gpg → ℕ → RecipientForm → Account → Reply
save_new_recipient gpg new_id form u =
    if is_accepted gpg u form
    then saved (
        normalize (record u {
          notification_recipients = u.notification_recipients ++ new_recipient new_id form u ∷ [];
        }))
    else refused

unfoldable pub save_recipient : Gpg → RecipientForm → ℕ → Account → Reply
save_recipient gpg form i u =
    if is_accepted gpg u form
    then saved (
        normalize (record u {
          notification_recipients = replace i (filled form) u.notification_recipients;
        }))
    else refused

unfoldable pub delete_recipient : ℕ → Account → Reply
delete_recipient i u = saved (
    normalize (record u {
      notification_recipients = rows (λ (r : Recipient). not (r.id == i)) u.notification_recipients;
    }))

unfoldable pub toggle_recipient_enabled : Gpg → Recipient → Bool → Account → Reply
toggle_recipient_enabled gpg r enabled u =
    if enabled && u.email_include_message_content && not (has_usable_key gpg r.pgp_key)
    then refused
    else saved (
        normalize_notification_state (record u {
          notification_recipients =
              replace r.id (λ (s : Recipient). record s { enabled = enabled })
                u.notification_recipients;
        }))

unfoldable pub toggle_include_content : Gpg → Bool → Account → Reply
toggle_include_content gpg include u =
    if include && not (enabled_recipients_support_content gpg u)
    then refused
    else saved (record u { email_include_message_content = include })

unfoldable pub recipient_limit_reached : Account → Bool
recipient_limit_reached u = leb (max_notification_recipients u) (length u.notification_recipients)

-- `_recipient_for_user`, and the rest of the handler after it
abbrev pub with_found : Option Recipient → (Recipient → Reply) → Reply
with_found none next = not_found
with_found (some r) next = next r

abbrev pub with_recipient : ℕ → Account → (Recipient → Reply) → Reply
with_recipient i u next =
    with_found (first (λ (r : Recipient). r.id == i) u.notification_recipients) next

-- settings/common.py, handle_pgp_key_form: with an empty text the key is removed.
unfoldable pub handle_pgp_key_form : Gpg → String → Account → Reply
handle_pgp_key_form gpg text u =
    let k = strip text in
    if k == ""
    then saved (set_pgp_key none u)
    else if gpg.is_valid_pgp_key k && gpg.can_encrypt_with_pgp_key k
    then saved (set_pgp_key (some k) u)
    else refused

-- A POST to a page, with the form that was submitted.
pub data Post : Type 0 where
  notifications include_content encrypt_entire_body : Bool → Post
  new : ℕ → RecipientForm → Post
  edit : ℕ → RecipientForm → Post
  enable : ℕ → Bool → Post
  delete : ℕ → Post
  pgp_key : String → Post

unfoldable pub handle_post : Gpg → Post → Account → Reply
handle_post gpg (notifications b) u = saved (record u { enable_email_notifications = b })
handle_post gpg (include_content b) u = toggle_include_content gpg b u
handle_post gpg (encrypt_entire_body b) u = saved (record u { email_encrypt_entire_body = b })
handle_post gpg (new new_id form) u =
    if recipient_limit_reached u then limit_reached else save_new_recipient gpg new_id form u
handle_post gpg (edit i form) u = with_recipient i u (λ r. save_recipient gpg form r.id u)
handle_post gpg (enable i b) u = with_recipient i u (λ r. toggle_recipient_enabled gpg r b u)
handle_post gpg (delete i) u = with_recipient i u (λ r. delete_recipient r.id u)
handle_post gpg (pgp_key text) u = handle_pgp_key_form gpg text u
