-- ===== src/Premium.antt =====
-- hushline/premium.py: billing by Stripe.
pub mod Routes
pub mod Work
pub mod Subscription
pub mod Invoice
pub mod Worker
