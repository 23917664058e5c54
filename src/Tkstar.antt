-- ===== src/Tkstar.antt =====
-- backend/internal/protocols/tkstar: the text dialects of TK-STAR trackers.
pub mod Frame
pub mod Fields
pub mod V1
pub mod V4
pub mod Encode
mod Examples
