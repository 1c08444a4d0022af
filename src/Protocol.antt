-- ===== src/Protocol.antt =====
-- crates/core/src/protocol: the messages of the server and their decoder.
pub mod Backend
pub mod Frontend
pub mod Reader
pub mod Decode
pub mod Frame
pub mod Wire
pub mod Fields
pub mod RoundTrip
pub mod Framing
pub mod Termination
mod Tests
