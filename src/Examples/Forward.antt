-- ===== src/Examples/Forward.antt =====
-- Templates of notifications.
use sms_relay.Base.{ℕ, suc, true, ◌≡◌, refl, some, List, [], ◌∷◌, arith}
use sms_relay.Base.Text.{codes, find, starts_with}
use sms_relay.Pdu.Decode.{empty_message}
use sms_relay.Sms.Message.{IncomingSms, blank_sms}
use sms_relay.Base.Result.{ok}
use sms_relay.Config.Types.{ForwardConfig, default_target}
use sms_relay.Forward.Service.{Client}
use sms_relay.Forward.Template.{replace, replace_all, render}
use sms_relay.Forward.Template.Segments.{Segment, literal, variable, sender, text, render-filled}

abbrev message : IncomingSms
message = record blank_sms {
  decoded = record empty_message { number = codes "+49"; text = codes "hi" };
}

abbrev segments : List Segment
segments = variable sender ∷ literal (codes ": ") ∷ variable text ∷ []

render-filled_example : render (codes "${sender}: ${text}") message ≡ some (codes "+49: hi")
render-filled_example =
    render-filled message segments (tt, (ground arith, (tt, tt))) (ground arith) (ground arith) tt

-- The number of a sender who writes a variable is replaced once more.
abbrev odd_message : IncomingSms
odd_message = record blank_sms {
  decoded = record empty_message { number = codes "${text}"; text = codes "hi" };
}

sender_replaced_twice : render (codes "${sender}") odd_message ≡ some (codes "hi")
unfolding render replace_all replace find starts_with
sender_replaced_twice = refl

-- A server that accepts every request and counts them.
abbrev counter : Client ℕ
counter = record { post = λ url body timeout count. (ok true, suc count); dump = λ object. ok [] }

abbrev forwarding : ForwardConfig
forwarding = record {
  enabled = true;
  targets = record default_target { type = codes "bark" } ∷ default_target ∷ [];
}
