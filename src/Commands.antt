-- ===== src/Commands.antt =====
-- backend/internal/commands: the life of a command, from the request to its end.
pub mod Store
pub mod Service
pub mod Request
pub mod Answers
pub mod History
pub mod Examples
