-- ===== src/Sms.antt =====
-- The SMS service of src/sms_relay/sms.
pub mod Message
pub mod Multipart
pub mod Parse
pub mod Inbox
pub mod Service
