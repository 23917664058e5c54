-- ===== src/H02.antt =====
-- backend/internal/protocols/h02: the adapter of the H02 protocol, in its binary and text forms.
pub mod Frame
pub mod Cursor
pub mod Binary
pub mod Text
pub mod Parse
pub mod Encode
pub mod Examples
