-- ===== src/At/Commands.antt =====
-- The command texts of src/sms_relay/at/at_commands.h, and those that the wrappers of
-- src/sms_relay/at/at_session.cpp send.
pub mod Constants
use sms_relay.Base.{ℕ, ◌+◌, ◌-◌, ◌/◌, ◌%◌, ◌^◌, Bool, ◌||◌, ◌++◌, Bytes, length, if◌then◌else◌}
use sms_relay.Base.Text.{codes, bytes_eq, to_string}

unfoldable pub list_messages : ℕ → Bytes
list_messages status = codes "AT+CMGL=" ++ to_string status

unfoldable pub read_message : ℕ → Bytes
read_message index = codes "AT+CMGR=" ++ to_string index

unfoldable pub delete_message : ℕ → Bytes
delete_message index = codes "AT+CMGD=" ++ to_string index

unfoldable pub send_message : ℕ → Bytes
send_message len = codes "AT+CMGS=" ++ to_string len

unfoldable pub set_urc_port : Bytes → Bytes
set_urc_port port = codes "AT+QURCCFG=\"urcport\",\"" ++ (port ++ codes "\"")

-- No quotation mark stands before the character set.
unfoldable pub set_character_set : Bytes → Bytes
set_character_set charset = codes "AT+CSCS=" ++ (charset ++ codes "\"")

unfoldable pub set_sms_mode : Bool → Bytes
set_sms_mode pdu_mode = if pdu_mode then codes "AT+CMGF=0" else codes "AT+CMGF=1"

-- The status code that `AtSession::list_messages` derives from its argument.
unfoldable pub status_code : Bytes → ℕ
status_code stat =
    if bytes_eq stat (codes "ALL") || bytes_eq stat (codes "4")
    then 4
    else if bytes_eq stat (codes "REC UNREAD") || bytes_eq stat (codes "0")
    then 0
    else if bytes_eq stat (codes "REC READ") || bytes_eq stat (codes "1")
    then 1
    else if bytes_eq stat (codes "STO UNSENT") || bytes_eq stat (codes "2")
    then 2
    else if bytes_eq stat (codes "STO SENT") || bytes_eq stat (codes "3")
    then 3
    else 4

-- The command of `AtSession::send_message`: the length of the PDU without its first byte, on
-- `size_t`, cut to sixteen bits.
unfoldable pub send_pdu_command : Bytes → Bytes
send_pdu_command pdu = send_message ((length pdu / 2 + 2 ^ 64 - 1) % 2 ^ 64 % 2 ^ 16)
