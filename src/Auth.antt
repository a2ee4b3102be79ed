-- ===== src/Auth.antt =====
-- src/modules/auth: one-time codes and refresh tokens.
mod Examples
pub mod Accounts
pub mod Otp
pub mod Tokens
