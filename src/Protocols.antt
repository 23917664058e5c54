-- ===== src/Protocols.antt =====
-- backend/internal/protocols: the contract between the TCP server and the tracker dialects.
pub mod Framing
pub mod Text
pub mod Floats
pub mod Message
pub mod Imei
pub mod Calendar
pub mod Stamps
pub mod Coordinates
