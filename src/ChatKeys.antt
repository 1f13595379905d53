-- ===== src/ChatKeys.antt =====
-- Chat keys (hushline/chat_key_lifecycle.py).
pub mod Lifecycle
pub mod Secrets
pub mod Payload
pub mod Submitted
pub mod Stored
pub mod Tests
