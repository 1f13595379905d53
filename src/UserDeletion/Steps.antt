-- ===== src/UserDeletion/Steps.antt =====
-- hushline/user_deletion.py: the statements of a deletion one after the other, none of which a foreign
-- key refuses.
use hushline.Common.{
  ℕ, ◌≡◌, refl, Bool, true, false, ◌||◌, ◌==◌, nat_eq, none, some, List, [], ◌∷◌, String, All,
  Option-cases, if_elim, if_cases, map, ap, if◌then◌else◌, inl, inr, any,
}
use hushline.Conversation.Envelope.{Library, object, no_fields}
use hushline.Conversation.Threads.{Participant}
use hushline.Model.User.{User}
use hushline.Premium.Work.{StripeEvent, StripeInvoice}
use hushline.UserDeletion.Events.{is_about_invoice, is_about_subscription}
use hushline.UserDeletion.Redacted.{
  decodes, names_user, AllRedacted, AllRedacted-unnamed, AllRedacted-trans,
  redact_invoice_events_sound, redact_subscription_events_sound,
}
use hushline.UserDeletion.Foreign.{any-without_self, without-without}
use hushline.UserDeletion.Delete.{
  delete_user_and_related, delete_below, redact_events, delete_owned, is_owned, is_name_of,
  invoice_ids_of, set_of,
}
use hushline.UserDeletion.{
  Database, UsernameRow, FieldDefinition, FieldValueRow, InboxMessage, is_username, is_definition,
  is_inbox_message, is_selected, without, delete_field_values, delete_messages, delete_usernames,
  delete_user_row, delete_participants, forget, forget_all,
}

-- The tables after the rows below the usernames `mine` are gone, and no others.
abbrev pub IsCleared : (ℕ → Bool) → Database → Database → Type 0
IsCleared mine before after =
    (after.field_definitions
      ≡ without (λ (d : FieldDefinition). is_selected mine d.username_id) before.field_definitions)
    × (after.field_values
        ≡ without
            (λ (v : FieldValueRow).
              is_selected (is_definition mine before.field_definitions) v.field_definition_id
              || is_selected (is_inbox_message mine before.inbox) v.message_id)
            before.field_values)
    × (after.inbox ≡ without (λ (m : InboxMessage). mine m.username_id) before.inbox)

abbrev pub below : (ℕ → Bool) → Database → Database
below p db = delete_messages p (record (delete_field_values p db) {
  field_definitions =
      without (λ (d : FieldDefinition). is_selected p d.username_id) db.field_definitions;
})

pub delete_below_succeeds : (p : ℕ → Bool) (db : Database) → delete_below p db ≡ some (below p db)
delete_below_succeeds p db =
    rw
      (any-without_self
        (λ (v : FieldValueRow).
          is_selected (is_definition p db.field_definitions) v.field_definition_id)
        db.field_values)
      refl

pub below-IsCleared : (p : ℕ → Bool) (db : Database) → IsCleared p db (below p db)
below-IsCleared p db = (refl, without-without _ _ db.field_values, refl)

pub delete_usernames_succeeds :
    (p : UsernameRow → Bool) (db : Database)
    → any
        (λ (d : FieldDefinition). is_selected (is_username p db.usernames) d.username_id)
        db.field_definitions
      ≡ false
    → any (λ (m : InboxMessage). is_username p db.usernames m.username_id) db.inbox ≡ false
    → delete_usernames p db ≡ some (record db { usernames = without p db.usernames })
delete_usernames_succeeds p db d m = rw (d, m) refl

pub redact_events_sound :
    (lib : Library) (user : User) (ids : List String) (es : List StripeEvent)
    → lib.loads "{}" ≡ some (object no_fields)
    → All (λ e. decodes lib e ≡ true) es
    → (es' : List StripeEvent) × (redact_events lib user ids es ≡ some es')
      × AllRedacted es es'
      × All (λ e. names_user lib "invoice." (is_about_invoice ids) e ≡ false) es'
      × All
          (λ e.
            names_user lib "customer.subscription."
              (is_about_subscription
                (set_of user.stripe_customer_id)
                (set_of user.stripe_subscription_id))
              e
            ≡ false)
          es'
redact_events_sound lib user ids es empty d =
    let cs = set_of user.stripe_customer_id in
    let ss = set_of user.stripe_subscription_id in
    let (fs, q, r, d', n) = redact_invoice_events_sound lib empty ids es d in
    let (gs, q', r', n') = redact_subscription_events_sound lib empty cs ss fs d' in
    (
      gs,
      rw q q',
      AllRedacted-trans r r',
      AllRedacted-unnamed lib empty "invoice." (is_about_invoice ids) refl r' n,
      n',
    )

-- The states between the statements.
abbrev pub nameless : ℕ → List StripeEvent → Database → Database
nameless id es db = record (delete_owned id (below (is_username (is_name_of id) db.usernames) db)) {
  stripe_events = es;
  stripe_invoices = without (λ (r : StripeInvoice). r.user_id == id) db.stripe_invoices;
  usernames = without (is_name_of id) db.usernames;
}

abbrev pub erased : ℕ → Database → Database
erased id db = record (delete_participants (λ i. i == id) db) {
  users = without (λ (u : User). u.id == id) db.users;
  notification_recipients = without (is_owned id) db.notification_recipients;
}

pub delete_usernames-nameless :
    (id : ℕ) (es : List StripeEvent) (db : Database)
    → delete_usernames
        (is_name_of id)
        (record (delete_owned id (below (is_username (is_name_of id) db.usernames) db)) {
          stripe_events = es;
          stripe_invoices = without (λ (r : StripeInvoice). r.user_id == id) db.stripe_invoices;
        })
      ≡ some (nameless id es db)
delete_usernames-nameless id es db =
    let mine = is_username (is_name_of id) db.usernames in
    delete_usernames_succeeds (is_name_of id) _
      (any-without_self (λ (d : FieldDefinition). is_selected mine d.username_id)
        db.field_definitions)
      (any-without_self (λ (m : InboxMessage). mine m.username_id) db.inbox)

pub delete_user_row-erased :
    (id : ℕ) (es : List StripeEvent) (db : Database)
    → delete_user_row id (nameless id es db) ≡ some (erased id (nameless id es db))
delete_user_row-erased id es db =
    rw
      (
        any-without_self (is_name_of id) db.usernames,
        any-without_self (is_owned id) db.status_texts,
        any-without_self (is_owned id) db.authentication_logs,
        any-without_self (λ (r : StripeInvoice). r.user_id == id) db.stripe_invoices,
      )
      refl

forget-user_id : (p : ℕ → Bool) (q : Participant) → (forget p q).user_id ≡ q.user_id
forget-user_id p q =
    if_elim (λ (r : Participant). r.user_id ≡ q.user_id) (is_selected p q.last_read_message_id) refl
      refl

pub forget_all-any :
    (p : ℕ → Bool) (id : ℕ) (qs : List Participant)
    → any (λ (q : Participant). q.user_id == id) qs ≡ false
    → any (λ (q : Participant). q.user_id == id) (forget_all p qs) ≡ false
forget_all-any p id [] h = refl
forget_all-any p id (q ∷ qs) h =
    elim (if_cases (q.user_id == id) true (any (λ (r : Participant). r.user_id == id) qs) false h) [
      | inl (_, e) ↦ absurd (cc e)
      | inr (f, e) ↦ rw (forget-user_id p q, f) (forget_all-any p id qs e)
    ]

pub forget_all-map :
    (p : ℕ → Bool) (qs : List Participant)
    → forget_all p qs
      ≡ map
          (λ (q : Participant).
            if is_selected p q.last_read_message_id
            then record q { last_read_message_id = none }
            else q)
          qs
forget_all-map p [] = refl
forget_all-map p (q ∷ qs) = ap (λ (rs : List Participant). forget p q ∷ rs) (forget_all-map p qs)

-- A deletion fails only where the data of an event cannot be read.
pub delete_user_and_related-some :
    (lib : Library) (user : User) (db : Database) {after : Database}
    → delete_user_and_related lib user db ≡ some after
    → (es : List StripeEvent) × (erased user.id (nameless user.id es db) ≡ after)
unfolding delete_user_and_related
delete_user_and_related-some lib user db {after} e =
    let mine = is_username (is_name_of user.id) db.usernames in
    elim (Option-cases
      (redact_events lib user (invoice_ids_of user.id db.stripe_invoices) db.stripe_events)) [
        | inl q ↦ let n : none ≡ some after = rw (delete_below_succeeds mine db, q) at e in cc n
        | inr (es, q) ↦
            let n : some (erased user.id (nameless user.id es db)) ≡ some after =
              rw
                (
                  delete_below_succeeds mine db,
                  q,
                  delete_usernames-nameless user.id es db,
                  delete_user_row-erased user.id es db,
                )
                at e in
            (es, cc n)
      ]
