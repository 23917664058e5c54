-- ===== src/Gt06.antt =====
-- backend/internal/protocols/gt06: the GT06/Concox binary protocol.
pub mod Frame
pub mod Decode
pub mod Parse
pub mod Encode
pub mod Simulate
pub mod Examples
