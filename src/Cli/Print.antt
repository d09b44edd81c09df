-- ===== src/Cli/Print.antt =====
-- What the command line client prints of messages (src/sms_relay_cli/main.cpp; the functions of the
-- same names in interactive_shell.cpp are the same).
use sms_relay.Base.{
  ℕ, ◌-◌, List, [], ◌∷◌, ◌++◌, Bytes, length, take, replicate, ltb, ◌==◌, if◌then◌else◌,
}
use sms_relay.Base.Text.{codes, to_string}
use sms_relay.Ipc.Protocol.{SmsInfo}

-- `std::endl` and `"\n"`.
abbrev pub line : Bytes → Bytes
line text = text ++ 10 ∷ []

unfoldable pub status_to_string : ℕ → Bytes
status_to_string status =
    if status == 0
    then codes "UNREAD"
    else if status == 1
    then codes "READ"
    else if status == 2
    then codes "UNSENT"
    else if status == 3
    then codes "SENT"
    else codes "UNKNOWN"

-- `std::left << std::setw(width)`
unfoldable pub setw : ℕ → Bytes → Bytes
setw width text = text ++ replicate (width - length text) b' '

unfoldable pub short_sender : Bytes → Bytes
short_sender sender = if ltb 20 (length sender) then take 17 sender ++ codes "..." else sender

unfoldable pub sms_row : SmsInfo → Bytes
unfolding setw status_to_string short_sender
sms_row sms = line (
    setw 6 (to_string sms.index)
    ++ (codes " "
        ++ (setw 12 (status_to_string sms.status)
            ++ (codes " " ++ (setw 20 (short_sender sms.sender) ++ (codes " " ++ sms.timestamp))))))

unfoldable pub sms_rows : List SmsInfo → Bytes
unfolding sms_row
sms_rows [] = []
sms_rows (sms ∷ messages) = sms_row sms ++ sms_rows messages

abbrev pub table_head : Bytes
table_head =
    line (codes "Index  Status       Sender               Time")
    ++ line (codes "------------------------------------------------------------")

unfoldable pub print_sms_table : List SmsInfo → Bytes
unfolding sms_rows
print_sms_table [] = line (codes "No messages found")
print_sms_table (sms ∷ messages) = table_head ++ sms_rows (sms ∷ messages)

unfoldable pub print_sms_info_full : SmsInfo → Bytes
print_sms_info_full sms =
    line (10 ∷ codes "========== SMS ==========")
    ++ (line (codes "From: " ++ sms.sender)
        ++ (line (codes "Time: " ++ sms.timestamp)
            ++ (line (codes "Text: " ++ sms.text)
                ++ (line (codes "============================") ++ 10 ∷ []))))

unfoldable pub full_infos : List SmsInfo → Bytes
unfolding print_sms_info_full
full_infos [] = []
full_infos (sms ∷ messages) = print_sms_info_full sms ++ full_infos messages

-- Indices with a blank behind each.
unfoldable pub index_list : Bytes → Bytes
index_list [] = []
index_list (idx ∷ indices) = to_string idx ++ (codes " " ++ index_list indices)

unfoldable pub print_sms_info_short : SmsInfo → Bytes
print_sms_info_short sms = line (
    codes "  ["
    ++ (to_string sms.index
        ++ (codes "] From: "
            ++ (sms.sender
                ++ (codes " | Text: "
                    ++ (take 50 sms.text
                        ++ ((if ltb 50 (length sms.text) then codes "..." else [])
                            ++ (codes " | Time: " ++ sms.timestamp))))))))
