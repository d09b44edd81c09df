-- ===== src/Cli.antt =====
-- The command line client (src/sms_relay_cli).
pub mod Arguments
pub mod Print
pub mod Responses
pub mod Commands
pub mod Editor
pub mod App
pub mod Shell
