-- ===== src/Auth.antt =====
-- backend/internal/auth: users and their roles, the table of refresh tokens, and the service that
-- issues and rotates tokens.
pub mod Users
pub mod Tokens
pub mod Service
pub mod Examples
