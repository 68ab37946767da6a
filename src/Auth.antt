-- ===== src/Auth.antt =====
-- Accounts and sessions (backend/services/auth_service.py): failed logins and lockouts, refresh
-- tokens, verified access tokens, nonces and handshake sessions. Text is a list of character codes.
pub mod Limiter
pub mod Tokens
pub mod AccessTokens
pub mod Sessions
