-- ===== src/UserDeletion/Erased.antt =====
-- hushline/user_deletion.py: the deletion of a user goes through, and what it leaves.
use hushline.Common.{
  Bool, ℕ, ◌≡◌, refl, true, false, ◌==◌, nat_eq, Option, none, some, List, [], ◌∷◌, arith, All, any,
  map, ◌&&◌, ◌||◌, if◌then◌else◌,
}
use hushline.Conversation.Envelope.{Library, object, no_fields}
use hushline.Conversation.Threads.{Participant, Message, MessageCopy}
use hushline.Model.User.{User}
use hushline.Premium.Work.{StripeInvoice}
use hushline.UserDeletion.Events.{is_about_invoice, is_about_subscription}
use hushline.UserDeletion.Redacted.{decodes, names_user, AllRedacted}
use hushline.UserDeletion.Steps.{
  IsCleared, below, delete_below_succeeds, below-IsCleared, delete_usernames_succeeds,
  redact_events_sound, nameless, erased, delete_usernames-nameless, delete_user_row-erased,
  forget_all-any, forget_all-map,
}
use hushline.UserDeletion.Foreign.{any-without_self, any-weaken, without_idem}
use hushline.UserDeletion.Delete.{
  delete_user_and_related, delete_username_and_related, is_owned, is_name_of, invoice_ids_of,
  set_of,
}
use hushline.UserDeletion.{
  Database, UsernameRow, FieldDefinition, InboxMessage, is_username, is_selected, without,
}

-- The user is the participant with this id, and a participant that the user is sent this message.
abbrev pub takes_part : ℕ → Database → ℕ → Bool
takes_part user db id = any (λ (q : Participant). q.user_id == user && q.id == id) db.participants

abbrev pub has_sent : ℕ → Database → ℕ → Bool
has_sent user db id =
    any (λ (m : Message). takes_part user db m.sender_participant_id && m.id == id)
      db.thread_messages

-- What is left of the user's rows: nothing, and nothing else is gone. A conversation's other
-- participants stay, where the message that was read last is forgotten if the user sent it. The events stay, and no
-- processed one has data about the user's invoices, customer or subscription.
pub record IsErased (lib : Library) (user : User) (before after : Database) : Type 0 where
  pub users : after.users ≡ without (λ (u : User). u.id == user.id) before.users
  pub usernames : after.usernames ≡ without (is_name_of user.id) before.usernames
  pub cleared : IsCleared (is_username (is_name_of user.id) before.usernames) before after
  pub status_texts : after.status_texts ≡ without (is_owned user.id) before.status_texts
  pub logs : after.authentication_logs ≡ without (is_owned user.id) before.authentication_logs
  pub recipients :
      after.notification_recipients ≡ without (is_owned user.id) before.notification_recipients
  pub invoices :
      after.stripe_invoices
      ≡ without (λ (r : StripeInvoice). r.user_id == user.id) before.stripe_invoices
  pub events : AllRedacted before.stripe_events after.stripe_events
  pub no_invoice_data :
      All
        (λ e.
          names_user lib "invoice."
            (is_about_invoice (invoice_ids_of user.id before.stripe_invoices))
            e
          ≡ false)
        after.stripe_events
  pub no_subscription_data :
      All
        (λ e.
          names_user lib "customer.subscription."
            (is_about_subscription
              (set_of user.stripe_customer_id)
              (set_of user.stripe_subscription_id))
            e
          ≡ false)
        after.stripe_events
  pub participants :
      after.participants
      ≡ map
          (λ (q : Participant).
            if is_selected (has_sent user.id before) q.last_read_message_id
            then record q { last_read_message_id = none }
            else q)
          (without (λ (q : Participant). q.user_id == user.id) before.participants)
  pub thread_messages :
      after.thread_messages
      ≡ without
          (λ (m : Message). takes_part user.id before m.sender_participant_id)
          before.thread_messages
  pub copies :
      after.copies
      ≡ without
          (λ (k : MessageCopy).
            has_sent user.id before k.conversation_message_id
            || takes_part user.id before k.recipient_participant_id)
          before.copies
  pub no_participant : any (λ (q : Participant). q.user_id == user.id) after.participants ≡ false

-- The deletion of a user whose events decode is not refused by a foreign key, and it erases: of each
-- table exactly the rows are gone that are the user's, that belong to the user's names, or that are
-- the user's part in conversations (the messages sent, their copies and the copies received), and no
-- processed event has data about the user's invoices, customer or subscription.
pub delete_user_and_related-erases :
    (lib : Library) (user : User) (db : Database)
    → lib.loads "{}" ≡ some (object no_fields)
    → All (λ e. decodes lib e ≡ true) db.stripe_events
    → (after : Database) × (delete_user_and_related lib user db ≡ some after)
      × IsErased lib user db after
unfolding delete_user_and_related
delete_user_and_related-erases lib user db empty d =
    let mine = is_username (is_name_of user.id) db.usernames in
    let ids = invoice_ids_of user.id db.stripe_invoices in
    let (es, q, r, n, n') = redact_events_sound lib user ids db.stripe_events empty d in
    (
      erased user.id (nameless user.id es db),
      rw (delete_below_succeeds mine db, q, delete_usernames-nameless user.id es db)
          (delete_user_row-erased user.id es db),
      record {
        users = refl;
        usernames = refl;
        cleared = below-IsCleared mine db;
        status_texts = refl;
        logs = refl;
        recipients = without_idem (is_owned user.id) db.notification_recipients;
        invoices = refl;
        events = r;
        no_invoice_data = n;
        no_subscription_data = n';
        participants = forget_all-map (has_sent user.id db) _;
        thread_messages = refl;
        copies = refl;
        no_participant =
            forget_all-any _ user.id _
              (any-without_self (λ (q : Participant). q.user_id == user.id) db.participants);
      },
    )

-- What is left after an alias is deleted.
pub record IsNameErased (name : UsernameRow) (before after : Database) : Type 0 where
  pub usernames : after.usernames ≡ without (λ (n : UsernameRow). n.id == name.id) before.usernames
  pub cleared : IsCleared (λ id. id == name.id) before after

named_once :
    (id : ℕ) (i : ℕ) (names : List UsernameRow)
    → is_username (λ n. n.id == id) names i ≡ true
    → (i == id) ≡ true
named_once id i [] h = cc
named_once id i (n ∷ names) h = ground (arith, named_once id i names)

named_selected :
    (id : ℕ) (names : List UsernameRow) (o : Option ℕ)
    → is_selected (is_username (λ n. n.id == id) names) o ≡ true
    → is_selected (λ i. i == id) o ≡ true
named_selected id names none h = h
named_selected id names (some i) h = named_once id i names h

-- The deletion of an alias is not refused by a foreign key: it takes the alias, its fields with
-- their values and its messages, and nothing else of these tables.
pub delete_username_and_related-erases :
    (name : UsernameRow) (db : Database)
    → (after : Database) × (delete_username_and_related name db ≡ some after)
      × IsNameErased name db after
unfolding delete_username_and_related
delete_username_and_related-erases name db =
    let p = λ (i : ℕ). i == name.id in
    let gone = λ (n : UsernameRow). n.id == name.id in
    (
      record (below p db) { usernames = without gone db.usernames },
      rw (delete_below_succeeds p db) (
          delete_usernames_succeeds gone (below p db)
            (any-weaken
              (λ (d : FieldDefinition). is_selected (is_username gone db.usernames) d.username_id)
              (λ (d : FieldDefinition). is_selected p d.username_id)
              (λ d. named_selected name.id db.usernames d.username_id)
              (below p db).field_definitions
              (any-without_self (λ (d : FieldDefinition). is_selected p d.username_id)
                db.field_definitions))
            (any-weaken (λ (m : InboxMessage). is_username gone db.usernames m.username_id)
              (λ (m : InboxMessage). p m.username_id)
              (λ m. named_once name.id m.username_id db.usernames) (below p db).inbox
              (any-without_self (λ (m : InboxMessage). p m.username_id) db.inbox))),
      record { usernames = refl; cleared = below-IsCleared p db },
    )
