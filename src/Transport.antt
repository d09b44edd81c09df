-- ===== src/Transport.antt =====
-- The bytes between the serial port and the AT layer (src/sms_relay/transport).
pub mod LineParser
pub mod RingBuffer
pub mod UrcDispatcher
pub mod Serial
