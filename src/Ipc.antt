-- ===== src/Ipc.antt =====
-- The protocol between the service and its command line client (src/common/ipc).
pub mod Protocol
pub mod Wire
pub mod Header
pub mod Payload
pub mod Offsets
pub mod Socket
pub mod Server
pub mod Client
