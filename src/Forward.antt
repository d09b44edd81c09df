-- ===== src/Forward.antt =====
-- The forwarding of messages (src/sms_relay/forward).
pub mod Template
pub mod Service
