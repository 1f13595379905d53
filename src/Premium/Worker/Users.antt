-- ===== src/Premium/Worker/Users.antt =====
-- What the worker of hushline/premium.py may do to the rows of `users`, over any number of events.
use hushline.Common.{
  String, ◌⊎◌, ℕ, zero, suc, [], ◌∷◌, ◌≡◌, refl, ◌∙◌, inl, inr, true, false, ◌||◌, List, arith,
  Option-cases, ◌==◌, string_eq, if_elim,
}
use text.Mathlib.Text.{starts_with}
use hushline.Model.Enums.{is_terminal}
use hushline.Model.User.{User, is_business_tier}
use hushline.Model.User.Table.{IsKeyed, All₂, All₂-refl, All₂-IsKeyed, All₂-trans}
use hushline.Premium.Work.{
  StripeEvent, Subscription, Invoice, Work, Outcome, returned, raised, Error, value_error,
  multiple_results, integrity_error,
}
use hushline.Premium.Subscription.Transitions.{
  Kind, created, updated, deleted, handle, Allowed, handle-Allowed,
}
use hushline.Premium.Invoice.{handle_invoice_created, handle_invoice_updated}
use hushline.Premium.Worker.{
  Store, Library, Event, next_event, run_event, settle, taken_up, work_of, process, worker_round,
  worker_rounds,
}

-- What every event keeps of an account.
pub record Kept (u u' : User) : Type 0 where
  pub same_id : u'.id ≡ u.id
  pub same_admin : u'.is_admin ≡ u.is_admin
  pub same_session : u'.session_id ≡ u.session_id
  pub same_password : u'.password_hash ≡ u.password_hash
  pub same_totp : u'.totp_secret ≡ u.totp_secret
  pub same_customer : u'.stripe_customer_id ≡ u.stripe_customer_id
  pub expired :
      (is_terminal u.stripe_subscription_status ≡ false)
      ⊎ ((is_terminal u'.stripe_subscription_status ≡ true)
          × ((is_business_tier u' ≡ false) ⊎ (is_business_tier u ≡ true)))

Kept-refl : (u : User) → Kept u u
Kept-refl u = record {
  same_id = refl;
  same_admin = refl;
  same_session = refl;
  same_password = refl;
  same_totp = refl;
  same_customer = refl;
  expired = ground arith;
}

Kept-trans : (u v w : User) → Kept u v → Kept v w → Kept u w
Kept-trans u v w a b = record {
  same_id = b.same_id ∙ a.same_id;
  same_admin = b.same_admin ∙ a.same_admin;
  same_session = b.same_session ∙ a.same_session;
  same_password = b.same_password ∙ a.same_password;
  same_totp = b.same_totp ∙ a.same_totp;
  same_customer = b.same_customer ∙ a.same_customer;
  expired = ground (arith, a.expired, b.expired);
}

Kept-of-Allowed : (kind : Kind) (sub : Subscription) (u v : User) → Allowed kind sub u v → Kept u v
Kept-of-Allowed kind sub u v a = record {
  same_id = a.same_id;
  same_admin = a.same_admin;
  same_session = a.same_session;
  same_password = a.same_password;
  same_totp = a.same_totp;
  same_customer = a.same_customer;
  expired = a.expired;
}

All₂-map :
    (R S : User → User → Type 0)
    → ((u v : User) → R u v → S u v)
    → (us vs : List User) → All₂ R us vs
    → All₂ S us vs
All₂-map R S f [] [] h = tt
All₂-map R S f [] (v ∷ vs) h = absurd h
All₂-map R S f (u ∷ us) [] h = absurd h
All₂-map R S f (u ∷ us) (v ∷ vs) h = (f u v h.0, All₂-map R S f us vs h.1)

module _ (w : Work) (k : IsKeyed w.users) where
  invoice_created-users :
      (now : ℕ) (invoice : Invoice) → (handle_invoice_created now invoice w).1.users ≡ w.users
  unfolding handle_invoice_created
  invoice_created-users now invoice = ground arith

  invoice_updated-users : (invoice : Invoice) → (handle_invoice_updated invoice w).1.users ≡ w.users
  unfolding handle_invoice_updated
  invoice_updated-users invoice = ground arith

  by_handle : (kind : Kind) (sub : Subscription) → All₂ Kept w.users (handle kind sub w).1.users
  by_handle kind sub =
      All₂-map (Allowed kind sub) Kept (Kept-of-Allowed kind sub) w.users _
        (handle-Allowed kind sub w k)

  unchanged : All₂ Kept w.users w.users
  unchanged = All₂-refl Kept Kept-refl w.users

  process-Kept : (now : ℕ) (event : Event) → All₂ Kept w.users (process now event w).1.users
  unfolding process handle
  process-Kept now event =
      let P = λ (r : Outcome × Work). All₂ Kept w.users r.1.users in
      let t = event.type in
      let sub = event.as_subscription in
      let made : P (handle_invoice_created now event.as_invoice w) =
        rw (invoice_created-users now event.as_invoice) unchanged in
      let synced : P (handle_invoice_updated event.as_invoice w) =
        rw (invoice_updated-users event.as_invoice) unchanged in
      if_elim P (starts_with t "customer.subscription.")
        (if_elim P (t == "customer.subscription.created") (by_handle created sub) (
          if_elim P (t == "customer.subscription.updated") (by_handle updated sub)
            (if_elim P (t == "customer.subscription.deleted") (by_handle deleted sub) unchanged)))
        (if_elim P (starts_with t "invoice.")
          (if_elim P (t == "invoice.created") made (
            if_elim P (t == "invoice.updated" || t == "invoice.payment_succeeded") synced
              unchanged))
          unchanged)

settle-Kept :
    (message : Error → String) (out : Outcome) (e : StripeEvent) (w : Work) (st : Store)
    → All₂ Kept st.users w.users
    → All₂ Kept st.users (settle message out e w st).users
settle-Kept message returned e w st h = h
settle-Kept message (raised value_error) e w st h = h
settle-Kept message (raised multiple_results) e w st h = h
settle-Kept message (raised integrity_error) e w st h = All₂-refl Kept Kept-refl st.users

run_event-Kept :
    (lib : Library) (now : ℕ) (e : StripeEvent) (st : Store)
    → IsKeyed st.users
    → All₂ Kept st.users (run_event lib now e st).users
unfolding run_event
run_event-Kept lib now e st k =
    let r = process now (lib.construct e.event_data) (work_of (taken_up e) st) in
    settle-Kept lib.message r.0 (taken_up e) r.1 st
      (process-Kept (work_of (taken_up e) st) k now (lib.construct e.event_data))

worker_round-Kept :
    (lib : Library) (now : ℕ) (st : Store)
    → IsKeyed st.users
    → All₂ Kept st.users (worker_round lib now st).users
unfolding worker_round
worker_round-Kept lib now st k =
    let same = All₂-refl Kept Kept-refl st.users in
    if_elim (λ (x : Store). All₂ Kept st.users x.users) st.worker_runs
      (elim (Option-cases (next_event st.events)) [
        | inl idle ↦ rw idle same
        | inr (e, h) ↦ rw h (run_event-Kept lib now e st k)
      ])
      same

-- Whatever events the worker processes, in whatever order: no account changes its id, its admin
-- flag, its credentials or its Stripe customer, and an account whose subscription has expired
-- incomplete keeps that status and is never put on the business tier.
pub worker_rounds-Kept :
    (lib : Library) (now n : ℕ) (st : Store)
    → IsKeyed st.users
    → All₂ Kept st.users (worker_rounds lib now n st).users
unfolding worker_rounds
worker_rounds-Kept lib now zero st k = All₂-refl Kept Kept-refl st.users
worker_rounds-Kept lib now (suc n) st k =
    let here = worker_round-Kept lib now st k in
    All₂-trans Kept st.users (worker_round lib now st).users _ Kept-trans here (
      worker_rounds-Kept lib now n (worker_round lib now st)
        (All₂-IsKeyed Kept st.users _ (λ u v r. r.same_id) here k))
