-- ===== src/At.antt =====
-- AT commands and their responses (src/sms_relay/at).
pub mod ResponseBuilder
pub mod Dispatcher
pub mod CommandQueue
pub mod Commands
pub mod Session
