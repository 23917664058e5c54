-- ===== src/Tracking.antt =====
-- backend/internal/tracking: the state of a device, its positions, and what a message changes.
pub mod State
pub mod Positions
pub mod Events
pub mod Replies
pub mod Rules
pub mod Pages
pub mod Ingest
pub mod Dispatch
pub mod Simplify
pub mod History
pub mod Examples
