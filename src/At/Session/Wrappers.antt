-- ===== src/At/Session/Wrappers.antt =====
-- The wrappers of src/sms_relay/at/at_session.cpp: what each passes to `send_command`.
use sms_relay.Base.{ℕ, Bool, Bytes}
use sms_relay.At.Commands
use sms_relay.At.Commands.{status_code}
use sms_relay.At.Commands.Constants
use sms_relay.At.Session.{Session, send_command}

unfoldable pub initialize_modem : Session → Session × ℕ
unfolding send_command
initialize_modem s = send_command Constants.init s

unfoldable pub get_urc_port : Session → Session × ℕ
unfolding send_command
get_urc_port s = send_command Constants.get_urc_port s

unfoldable pub set_urc_port : Bytes → Session → Session × ℕ
unfolding send_command
set_urc_port port s = send_command (Commands.set_urc_port port) s

unfoldable pub check_and_set_urc_port : Session → Session × ℕ
unfolding send_command
check_and_set_urc_port s = send_command (Commands.set_urc_port Constants.urc_port_uart1) s

unfoldable pub set_sms_pdu_mode : Bool → Session → Session × ℕ
unfolding send_command
set_sms_pdu_mode pdu_mode s = send_command (Commands.set_sms_mode pdu_mode) s

unfoldable pub set_new_message_indication : Session → Session × ℕ
unfolding send_command
set_new_message_indication s = send_command Constants.set_new_msg_ind s

unfoldable pub list_messages : Bytes → Session → Session × ℕ
unfolding send_command
list_messages stat s = send_command (Commands.list_messages (status_code stat)) s

unfoldable pub read_message : ℕ → Session → Session × ℕ
unfolding send_command
read_message index s = send_command (Commands.read_message index) s

unfoldable pub delete_message : ℕ → Session → Session × ℕ
unfolding send_command
delete_message index s = send_command (Commands.delete_message index) s

unfoldable pub send_message : Bytes → Session → Session × ℕ
unfolding send_command
send_message pdu s = send_command (Commands.send_pdu_command pdu) s

unfoldable pub get_signal_quality : Session → Session × ℕ
unfolding send_command
get_signal_quality s = send_command Constants.signal_quality s

unfoldable pub get_manufacturer : Session → Session × ℕ
unfolding send_command
get_manufacturer s = send_command Constants.manufacturer s

unfoldable pub get_model : Session → Session × ℕ
unfolding send_command
get_model s = send_command Constants.model s
