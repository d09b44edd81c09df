-- ===== src/Examples/Sms.antt =====
-- The SMS service on short messages.
use sms_relay.Base.{
  ℕ, suc, ◌+◌, ◌*◌, ◌^◌, ◌≡◌, ◌↔◌, refl, true, none, List, [], ◌∷◌, ◌++◌, Bytes, All, arith,
}
use mathlib.Core.List.{Permᴰ}
use sms_relay.Base.Result.{Error, ok}
use sms_relay.Base.Text.{codes, joined, starts_with}
use sms_relay.Base.OrderedMap.{compare_bytes, lookup}
use sms_relay.Pdu.Decode.{empty_message}
use sms_relay.At.ResponseBuilder.{AtResponse}
use sms_relay.Sms.Message.{IncomingSms, blank_sms, blank_entry, get_cache_key, is_multipart}
use sms_relay.Sms.Multipart.{MultipartCache}
use sms_relay.Sms.Multipart.Arrivals.{Arrival, deliver, recent, recent_at_each}
use sms_relay.Sms.Multipart.AnyOrder.{deliver-any_order}
use sms_relay.Sms.Parse.{parse_cmgl_response}
use sms_relay.Sms.Parse.Answers.{Listed, listing, parse_cmgl_response-listing}
use sms_relay.Sms.Inbox.{combine_multipart_messages}
use sms_relay.Sms.Inbox.Gather.{singles, combine_multipart_messages-any_order}
use sms_relay.Sms.Inbox.Table.{Change, add, remove, message_at, run, write_all, message_at-run}
use sms_relay.Sms.Service.{Modem, Service, indices_to_delete, delete_message}
use sms_relay.Sms.Service.Deletion.{IsSuccess, delete_each, delete_message-each}
use sms_relay.Sms.Service.Worker
use sms_relay.Sms.Service.Worker.{
  Event, notification, round, arguments, with_queue, run_tasks, queue_arguments, run-tasks,
}

abbrev sender : Bytes
sender = codes "+49"

-- Part `seq` of two.
abbrev part : ℕ → Bytes → IncomingSms
part seq text = record blank_sms {
  index = seq + 10;
  success = true;
  decoded = record empty_message {
    number = sender;
    text = text;
    has_udh = true;
    concat_ref = 7;
    concat_seq = seq;
    concat_total = 2;
  };
}

abbrev texts : List Bytes
texts = codes "he" ∷ codes "llo" ∷ []

-- The second part arrives first, and the cache has an entry of the same key from long before.
abbrev rest : List Arrival
rest = (201 * 10 ^ 9, 202 * 10 ^ 9, part 1 (codes "he")) ∷ []

abbrev arrivals : List Arrival
arrivals = (200 * 10 ^ 9, 200 * 10 ^ 9 + 5, part 2 (codes "llo")) ∷ rest

abbrev stale : MultipartCache
stale = (get_cache_key sender 7, record blank_entry { parts = (1, codes "x") ∷ [] }) ∷ []

no_entry : lookup compare_bytes (get_cache_key sender 7) (recent (200 * 10 ^ 9) stale) ≡ none
unfolding lookup
no_entry = refl

deliver-any_order_example :
    (sms : IncomingSms) × (deliver arrivals stale ≡ (recent_at_each arrivals stale, sms ∷ []))
    × (sms.decoded.text ≡ joined texts)
    × (sms.decoded.number ≡ sender)
deliver-any_order_example =
    deliver-any_order sender 7 texts (200 * 10 ^ 9) (200 * 10 ^ 9 + 5) (part 2 (codes "llo")) rest
      stale (omega arith) ((refl, refl, refl), ((refl, refl, refl), tt)) (Permᴰ.swap refl refl)
      (omega arith, tt) no_entry

abbrev single : IncomingSms
single = record blank_sms { index = 4; success = true }

abbrev raw : List IncomingSms
raw = part 2 (codes "llo") ∷ single ∷ part 1 (codes "he") ∷ []

combine_multipart_messages-any_order_example :
    (sms : IncomingSms) × (combine_multipart_messages 9 raw ≡ singles raw ++ sms ∷ [])
    × (sms.decoded.text ≡ joined texts)
    × (sms.decoded.number ≡ sender)
unfolding is_multipart
combine_multipart_messages-any_order_example =
    combine_multipart_messages-any_order sender 7 9 texts raw (omega arith)
      ((refl, refl, refl), ((refl, refl, refl), tt)) (Permᴰ.swap refl refl)

abbrev changes : List Change
changes = add single ∷ add (part 1 (codes "he")) ∷ remove 4 ∷ []

message_at-run_example : message_at (run changes []) 11 ≡ write_all changes (message_at []) 11
message_at-run_example = message_at-run changes [] 11

abbrev listed : List Listed
listed =
    record { index = 3; stat = 1; rest = codes ",24"; pdu = codes "07F0" }
    ∷ record { index = 12; stat = 0; rest = codes ",20"; pdu = codes "07F1" }
    ∷ []

abbrev answer : List Bytes → AtResponse
answer lines = record { success = true; status = codes "OK"; error_code = []; lines = lines }

parse_cmgl_response-listing_example :
    parse_cmgl_response (answer (listing listed)) ≡ (3, 1) ∷ (12, 0) ∷ []
unfolding starts_with
parse_cmgl_response-listing_example =
    parse_cmgl_response-listing (answer (listing listed)) listed
      ((omega arith, omega arith, refl), ((omega arith, omega arith, refl), tt)) refl

-- A modem that counts its commands and accepts them all.
abbrev counter : Modem ℕ
counter = record { send_command = λ command count. (ok (answer []), suc count) }

abbrev silent : Error → Bytes
silent e = []

abbrev service : Service
service = record {
  storage = codes "ME";
  callback = true;
  multipart_cache = [];
  message_cache = record single { original_indices = 4 ∷ 9 ∷ [] } ∷ [];
  cache_initialized = true;
  background_running = true;
  task_queue = codes "\"ME\",2" ∷ [];
  notified = [];
}

delete_message-each_example :
    ((delete_message counter true silent 4 service 0).1
      ≡ (delete_each counter true silent (indices_to_delete 4 service.message_cache) 0).1)
    × (((delete_message counter true silent 4 service 0).0 ≡ [])
        ↔ All IsSuccess
            (delete_each counter true silent (indices_to_delete 4 service.message_cache) 0).0)
unfolding indices_to_delete
delete_message-each_example = delete_message-each counter true silent 4 service 0 (tt, (tt, tt))

abbrev events : List Event
events = round 1 2 ∷ notification (codes "\"ME\",3") ∷ round 3 4 ∷ []

run-tasks_example :
    (tasks : List (ℕ × ℕ × Bytes)) × (queue_arguments counter true silent tasks
        ++ (Worker.run counter true silent events service 0).0.task_queue
      ≡ service.task_queue ++ arguments events)
    × ((
      with_queue [] (Worker.run counter true silent events service 0).0,
      (Worker.run counter true silent events service 0).1,
    )
        ≡ run_tasks counter true silent tasks (with_queue [] service) 0)
run-tasks_example = run-tasks counter true silent events service 0 refl
