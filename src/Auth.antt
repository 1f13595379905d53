-- ===== src/Auth.antt =====
-- Sessions and sign-in (hushline/auth.py, hushline/routes/auth.py).
pub mod Session
pub mod Store
pub mod Reset
pub mod Register
pub mod Recovery
pub mod Login
pub mod TwoFactor
pub mod SignIn
pub mod Samples
pub mod Tests
