-- ===== src/At/Commands/Constants.antt =====
-- The constants of src/sms_relay/at/at_commands.h.
use sms_relay.Base.{Bytes}
use sms_relay.Base.Text.{codes}

abbrev pub init : Bytes
init = codes "AT"

abbrev pub reset : Bytes
reset = codes "ATZ"

abbrev pub echo_off : Bytes
echo_off = codes "ATE0"

abbrev pub verbose_error : Bytes
verbose_error = codes "AT+CMEE=1"

abbrev pub set_sms_pdu_mode : Bytes
set_sms_pdu_mode = codes "AT+CMGF=0"

abbrev pub set_sms_text_mode : Bytes
set_sms_text_mode = codes "AT+CMGF=1"

abbrev pub set_new_msg_ind : Bytes
set_new_msg_ind = codes "AT+CNMI=2,1,0,1,0"

abbrev pub list_messages_all_text : Bytes
list_messages_all_text = codes "AT+CMGL=\"ALL\""

abbrev pub list_messages_rec_unread_text : Bytes
list_messages_rec_unread_text = codes "AT+CMGL=\"REC UNREAD\""

abbrev pub list_messages_rec_read_text : Bytes
list_messages_rec_read_text = codes "AT+CMGL=\"REC READ\""

abbrev pub list_messages_sto_unsent_text : Bytes
list_messages_sto_unsent_text = codes "AT+CMGL=\"STO UNSENT\""

abbrev pub list_messages_sto_sent_text : Bytes
list_messages_sto_sent_text = codes "AT+CMGL=\"STO SENT\""

abbrev pub signal_quality : Bytes
signal_quality = codes "AT+CSQ"

abbrev pub registration : Bytes
registration = codes "AT+CREG?"

abbrev pub operator : Bytes
operator = codes "AT+COPS?"

abbrev pub manufacturer : Bytes
manufacturer = codes "AT+GMI"

abbrev pub model : Bytes
model = codes "AT+GMM"

abbrev pub revision : Bytes
revision = codes "AT+GMR"

abbrev pub imei : Bytes
imei = codes "AT+GSN"

abbrev pub get_character_set : Bytes
get_character_set = codes "AT+CSCS?"

abbrev pub get_urc_port : Bytes
get_urc_port = codes "AT+QURCCFG=\"urcport\""

abbrev pub urc_port_uart1 : Bytes
urc_port_uart1 = codes "uart1"

abbrev pub urc_port_usb_at : Bytes
urc_port_usb_at = codes "usbat"

abbrev pub urc_port_usb_modem : Bytes
urc_port_usb_modem = codes "usbmodem"
