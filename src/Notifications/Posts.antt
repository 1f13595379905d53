-- ===== src/Notifications/Posts.antt =====
-- hushline/settings/notifications.py: the pages' POSTs one after the other.
use hushline.Common.{
  All, ℕ, ◌≡◌, ap, ◌∙◌, Bool, true, not, some, List, [], ◌∷◌, ◌==◌, nat_eq, string_eq, option_eq,
  first, strip, if_elim, Option-cases, inl, inr,
}
use hushline.Notifications.{Recipient, Account}
use hushline.Notifications.Settings.{
  Gpg, Reply, saved, refused, not_found, limit_reached, enabled_recipients_support_content,
  recipient_limit_reached, with_recipient, Post, notifications, include_content,
  encrypt_entire_body, new, edit, enable, delete, pgp_key, handle_post,
}
use hushline.Notifications.Normal.{first-id}
use hushline.Notifications.Content.{KeepsContent, gives_key, KeepsContent-AreReady}
use hushline.Notifications.Kept.{
  Keeps, save_new_recipient-Keeps, save_recipient-Keeps, delete_recipient-Keeps,
  toggle_recipient_enabled-Keeps, toggle_include_content-Keeps, handle_pgp_key_form-Keeps,
}

-- What is stored after each post.
abbrev pub stored : Account → Reply → Account
stored u (saved v) = v
stored u refused = u
stored u not_found = u
stored u limit_reached = u

unfoldable pub handle_posts : Gpg → List Post → Account → Account
handle_posts gpg [] u = u
handle_posts gpg (p ∷ ps) u = handle_posts gpg ps (stored u (handle_post gpg p u))

module _ (gpg : Gpg) where
  -- A post that drops no key, or says of the recipient that loses it whether it is enabled.
  abbrev pub gives : Post → Bool
  gives (edit i form) = gives_key gpg form
  gives (pgp_key text) = not (strip text == "")
  gives _ = true

  with_recipient-Keeps :
      (i : ℕ) (u : Account) (next : Recipient → Reply)
      → ((r : Recipient)
          → first (λ (s : Recipient). s.id == r.id) u.notification_recipients ≡ some r
          → Keeps gpg (next r))
      → Keeps gpg (with_recipient i u next)
  with_recipient-Keeps i u next h =
      elim (Option-cases (first (λ (s : Recipient). s.id == i) u.notification_recipients)) [
        | inl e ↦ rw e tt
        | inr (r, e) ↦ rw e (
            h r (
              ap (λ j. first (λ (s : Recipient). s.id == j) u.notification_recipients)
                (first-id i u.notification_recipients e)
              ∙ e))
      ]

  handle_post-Keeps :
      (p : Post) (u : Account)
      → gives p ≡ true
      → KeepsContent gpg u
      → Keeps gpg (handle_post gpg p u)
  unfolding handle_post enabled_recipients_support_content
  handle_post-Keeps (notifications b) u g k = k
  handle_post-Keeps (include_content b) u g k = toggle_include_content-Keeps gpg b u k
  handle_post-Keeps (encrypt_entire_body b) u g k = k
  handle_post-Keeps (new i form) u g k =
      if_elim (Keeps gpg) (recipient_limit_reached u) tt
        (save_new_recipient-Keeps gpg i form u (KeepsContent-AreReady gpg u k))
  handle_post-Keeps (edit i form) u g k =
      with_recipient-Keeps i u _
        (λ r _. save_recipient-Keeps gpg form r.id u (KeepsContent-AreReady gpg u k) g)
  handle_post-Keeps (enable i b) u g k =
      with_recipient-Keeps i u _
        (λ r e. toggle_recipient_enabled-Keeps gpg r b u (KeepsContent-AreReady gpg u k) e)
  handle_post-Keeps (delete i) u g k =
      with_recipient-Keeps i u _
        (λ r _. delete_recipient-Keeps gpg r.id u (KeepsContent-AreReady gpg u k))
  handle_post-Keeps (pgp_key text) u g k =
      handle_pgp_key_form-Keeps gpg text u (KeepsContent-AreReady gpg u k) k g

  stored-KeepsContent :
      (u : Account) (r : Reply) → KeepsContent gpg u → Keeps gpg r → KeepsContent gpg (stored u r)
  stored-KeepsContent u (saved v) k h = h
  stored-KeepsContent u refused k h = k
  stored-KeepsContent u not_found k h = k
  stored-KeepsContent u limit_reached k h = k

  -- Whatever a user posts to the notifications' pages and to the page of the PGP key, mail includes
  -- messages' contents only while some recipient is enabled and every enabled one with an address has
  -- a key that GPG takes and can encrypt with, if this is so at first, and if no post removes a key by
  -- the page of the PGP key, or by a recipient's form without its checkbox.
  pub posts_keep_content :
      (ps : List Post) (u : Account)
      → All (λ p. gives p ≡ true) ps
      → KeepsContent gpg u
      → KeepsContent gpg (handle_posts gpg ps u)
  unfolding handle_posts
  posts_keep_content [] u g k = k
  posts_keep_content (p ∷ ps) u (g, gs) k =
      posts_keep_content ps (stored u (handle_post gpg p u)) gs
        (stored-KeepsContent u (handle_post gpg p u) k (handle_post-Keeps p u g k))
