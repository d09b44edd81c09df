-- ===== src/Pdu.antt =====
-- The SMS codec of src/common/pdu/pdu.cpp.
pub mod Hex
pub mod Utf8
pub mod Gsm7
pub mod Septets
pub mod Ucs2
pub mod SemiOctets
pub mod Address
pub mod Timestamp
pub mod Udh
pub mod Decode
pub mod Submit
