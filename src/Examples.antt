-- ===== src/Examples.antt =====
-- Concrete runs of the code and instances of the theorems.
mod Transport
mod At
mod Ipc
mod Server
mod Client
mod Slots
mod Cli
mod Pdu
mod Submit
mod Sms
mod Serial
mod Config
mod Forward
