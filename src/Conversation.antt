-- ===== src/Conversation.antt =====
-- Encrypted conversations (hushline/routes/message.py).
pub mod RateLimit
pub mod Threads
pub mod Envelope
pub mod Signature
pub mod Append
pub mod Delete
pub mod Tests
