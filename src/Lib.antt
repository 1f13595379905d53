-- ===== src/Lib.antt =====
-- Hush Line: a verification of the server's core logic.
--
-- Hush Line is a web application for confidential tips: a Flask server over a SQL database. The
-- parts that decide who may act, what a reset or a deletion leaves behind and who pays for what are
-- modelled here from the Python sources, as functions on the rows that they read and write. A table
-- is a list of rows, a query is a function on that list (Common/Rows), and a handler is a function
-- from a request and the tables to a response and the tables. Time is a whole number of
-- microseconds, or of ticks where only the order counts.
--
--   Model      hushline/model/user.py, tier.py, enums.py, chat_key.py: the rows that parts share.
--              A user's row has the columns that the modelled code uses; encrypted columns hold
--              their plain values.
--   Password   hushline/password_hasher.py: the dispatch between the two hash formats. The hash
--              libraries are an argument, Hashing; what is relied on is Verifies.
--   Auth       Session: hushline/auth.py, the keys of the session cookie, get_session_user and the
--              two guards. Register, Login, TwoFactor, Recovery, Reset: register, login,
--              verify_2fa_login, request_password_reset, reset_password and logout of
--              hushline/routes/auth.py. Store has the tables, and Env what a request takes from
--              outside: the clock, the random texts, the hash of a token, the check of a one-time
--              code, and whether the database takes the commit. A commit that fails leaves the
--              tables as they were.
--   ChatKeys   hushline/chat_key_lifecycle.py: Secrets and Payload are validate_chat_key_payload,
--              Submitted is its use by a login (routes/auth.py), Lifecycle retires and replaces a
--              user's active key. JSON (Model/Json), base64 and json.dumps are arguments.
--   Conversation  hushline/routes/message.py and hushline/model/conversation.py: RateLimit is
--              _consume_conversation_message_rate_limit, Threads finds a conversation and marks a
--              participant as present (conversation_presence), Envelope and Signature are the checks
--              of a ciphertext, Append is append_conversation_message, and Delete is
--              delete_conversation with the cascades of the foreign keys. The JSON, base64 and
--              cryptography libraries are the argument Envelope.Library.
--   Fields     handle_field_post of hushline/settings/common.py and hushline/model/field_definition.py: a
--              username's fields and their order. The constraint on the order is checked where a field
--              is added; Succeed has the requests in a row and shows that it always holds.
--   Inbox      hushline/model/message.py and message_status_text.py, settings/replies.py, and
--              delete_message and set_message_status of routes/message.py: a user's messages and the
--              answers that their senders see. Posts has the requests in a row. A transaction that
--              fails leaves what was stored; the two commits of delete_message are one step.
--   Notifications  hushline/settings/notifications.py, the properties of model/user.py over a user's
--              recipients, send_email_to_user_recipients of routes/common.py and resend_message of
--              routes/message.py. Settings has the pages' operations, Mail what is sent, Posts the
--              posts in a row. Encrypted columns hold plain values, GPG and SMTP are arguments.
--   Premium    hushline/premium.py, hushline/model/stripe_invoice.py and stripe_event.py:
--              Subscription and Invoice have the handlers of Stripe's events, Worker has the
--              webhook that stores an event and the worker that takes the oldest pending one, runs
--              its handler and records how it ended. What a handler wrote before it raised stays
--              written, as the worker commits the session afterwards; only an IntegrityError ends
--              the worker (Stop). The worker's endless loop is a number of rounds. Routes has the routes by which a user subscribes, cancels and
--              changes the renewal; what Stripe answers is the argument Stripe.
--   Template   hushline/safe_template.py: safe_render_template over lists of code points; its loop has
--              a turn per variable and the template's length plus one as fuel, which Total shows to
--              be enough. Renders has the language of the templates. Header is the profile header:
--              ValidTemplate of hushline/forms.py, the form and the branch of settings/branding.py
--              that store a template, and the text that routes/profile.py shows.
--   UserDeletion  hushline/user_deletion.py: the tables and each DELETE with the foreign keys that
--              refuse or cascade, Events the redaction of stored Stripe events, Blocking what stands
--              against a deletion, Delete delete_user_and_related and delete_username_and_related,
--              Accounts the routes delete_account (settings/delete_account.py), delete_user and
--              delete_username (admin.py).
--
-- Calls of one request run without interleaving, which the row locks of the worker and the advisory
-- locks of the rate limit provide where the theorems rely on it; the log of second factors has no
-- such lock, so its bound is for requests that follow each other. Stored events are taken to decode,
-- by the argument Library. Not modelled: the receipts and the upkeep of Stripe's products and prices,
-- which are next to what is modelled; the submissions of messages and the profiles' pages; the inbox's page, the other settings
-- and the directory, which mostly render pages; mail, GPG and storage, which call other programs; and
-- the browser's code.
pub mod Common
pub mod Model
pub mod Password
pub mod Auth
pub mod ChatKeys
pub mod Conversation
pub mod Fields
pub mod Inbox
pub mod Notifications
pub mod Premium
pub mod Template
pub mod UserDeletion
