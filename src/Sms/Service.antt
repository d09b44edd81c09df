-- ===== src/Sms/Service.antt =====
-- `SmsService` (src/sms_relay/sms/sms_service.cpp). Waiting for the future of a command makes it a
-- call of the modem, which answers and changes.
pub mod Deletion
pub mod Parts
pub mod Worker
use sms_relay.Base.{
  ℕ, Bool, true, false, not, Option, none, some, List, [], ◌∷◌, ◌++◌, Bytes, ◌==◌, if◌then◌else◌,
}
use sms_relay.Base.Result.{Result, Error, ok, err}
use sms_relay.Base.Text.{codes, to_string}
use sms_relay.Pdu.Decode.{PduMessage, decode}
use sms_relay.At.Commands
use sms_relay.At.ResponseBuilder.{AtResponse}
use sms_relay.Sms.Message.{IncomingSms, blank_sms, is_multipart}
use sms_relay.Sms.Multipart.{MultipartCache, handle_multipart, cleanup_cache}
use sms_relay.Sms.Parse.{parse_cmti_args, extract_pdu_from_cmgr, parse_cmgl_response}
use sms_relay.Sms.Inbox.{combine_multipart_messages}

-- `send_command(cmd).get()` of the session: the answer to a command, or the exception of the
-- future, and the session behind it.
pub record Modem (M : Type 0) : Type 0 where
  pub send_command : Bytes → M → Result AtResponse × M

pub record Service : Type 0 where
  pub storage : Bytes
  pub callback : Bool
  pub multipart_cache : MultipartCache
  pub message_cache : List IncomingSms
  pub cache_initialized : Bool
  pub background_running : Bool
  pub task_queue : List Bytes
  pub notified : List IncomingSms

-- The constructor. `notified` logs what the callback got.
unfoldable pub create : Bytes → Service
create storage = record {
  storage = storage;
  callback = false;
  multipart_cache = [];
  message_cache = [];
  cache_initialized = false;
  background_running = true;
  task_queue = [];
  notified = [];
}

unfoldable pub set_new_sms_callback : Bool → Service → Service
set_new_sms_callback given s = record s { callback = given }

unfoldable pub notify : IncomingSms → Service → Service
notify sms s = if s.callback then record s { notified = s.notified ++ sms ∷ [] } else s

-- The destructor, once the background thread has ended.
unfoldable pub destroy : Service → Service
destroy s = record s {
  background_running = false;
  task_queue = [];
  multipart_cache = [];
  message_cache = [];
}

-- `handle_cmti` queues a task, which is known by its arguments.
unfoldable pub handle_cmti : Bytes → Service → Service
handle_cmti args s = record s { task_queue = s.task_queue ++ args ∷ [] }

abbrev new_sms : Bytes → ℕ → IncomingSms
new_sms storage index = record blank_sms { index = index; storage = storage }

-- A PDU that does not decode is kept in a message without success.
unfoldable pub with_pdu : Result PduMessage → Bytes → IncomingSms → IncomingSms
with_pdu (err e) pdu_hex sms = record sms { pdu_hex = pdu_hex }
with_pdu (ok decoded) pdu_hex sms = record sms {
  pdu_hex = pdu_hex;
  decoded = decoded;
  success = true;
}

unfoldable pub with_hex : Bool → Bytes → IncomingSms → IncomingSms
unfolding with_pdu
with_hex left_first [] sms = sms
with_hex left_first (c ∷ pdu_hex) sms = with_pdu (decode left_first (c ∷ pdu_hex)) (c ∷ pdu_hex) sms

unfoldable pub with_response : Bool → Result AtResponse → IncomingSms → IncomingSms
unfolding with_hex extract_pdu_from_cmgr
with_response left_first (err e) sms = sms
with_response left_first (ok response) sms =
    if not response.success then sms else with_hex left_first (extract_pdu_from_cmgr response) sms

-- What remains of `handle_cmti`'s task with the message at hand.
unfoldable pub received : ℕ → IncomingSms → Service → Service
unfolding is_multipart handle_multipart notify
received now sms s =
    if not sms.success
    then s
    else if is_multipart sms
    then (let (cache, notification) = handle_multipart now sms s.multipart_cache in
        elim notification [
          | none ↦ record s { multipart_cache = cache }
          | some combined ↦ notify combined (record s { multipart_cache = cache })
        ])
    else notify sms s

-- `message_cache_` after a move of the new messages.
unfoldable pub update_message_cache : List IncomingSms → Service → Service
update_message_cache combined_messages s = record s {
  message_cache = combined_messages;
  cache_initialized = true;
}

unfoldable pub get_cached_messages : Service → List IncomingSms
get_cached_messages s = if not s.cache_initialized then [] else s.message_cache

-- The indices of the first combined message in the cache with this index, or the index alone.
unfoldable pub indices_to_delete : ℕ → List IncomingSms → List ℕ
indices_to_delete index [] = index ∷ []
indices_to_delete index (sms ∷ cache) = elim sms.original_indices [
  | [] ↦ indices_to_delete index cache
  | first ∷ others ↦ if sms.index == index then first ∷ others else indices_to_delete index cache
]

unfoldable pub failure_text : ℕ → AtResponse → Bytes
failure_text index response =
    codes "Failed to delete index "
    ++ (to_string index ++ elim response.lines [ [] ↦ [] | line ∷ lines ↦ codes ": " ++ line ])

-- `what` is the text of an exception. `left_first` is the order of evaluation that the PDU decoder
-- takes.
module _ {M : Type 0} (modem : Modem M) (left_first : Bool) (what : Error → Bytes) where
  unfoldable pub read_sms : Bytes → ℕ → M → IncomingSms × M
  unfolding with_response Commands.read_message
  read_sms storage index m =
      let (answer, m') = modem.send_command (Commands.read_message index) m in
      (with_response left_first answer (new_sms storage index), m')

  -- A task of the background thread: `now` at its start, `later` with the message at hand.
  unfoldable pub run_task : ℕ → ℕ → Bytes → Service → M → Service × M
  unfolding parse_cmti_args cleanup_cache read_sms received
  run_task now later args s m = elim (parse_cmti_args args) [
    | err e ↦ (s, m)
    | ok (storage, index) ↦
        let s' = record s { multipart_cache = cleanup_cache now s.multipart_cache } in
        let (sms, m') = read_sms storage index m in (received later sms s', m')
  ]

  unfoldable pub next_task : ℕ → ℕ → List Bytes → Service → M → Service × M
  unfolding run_task
  next_task now later [] s m = (s, m)
  next_task now later (args ∷ rest) s m = run_task now later args (record s { task_queue = rest }) m

  -- A round of `background_worker`; with an empty queue it waits.
  unfoldable pub background_worker : ℕ → ℕ → Service → M → Service × M
  unfolding next_task
  background_worker now later s m = elim s.background_running [
    | false ↦ (s, m)
    | true ↦ next_task now later s.task_queue s m
  ]

  unfoldable pub read_all_messages : Bytes → List (ℕ × ℕ) → M → List IncomingSms × M
  unfolding read_sms
  read_all_messages storage [] m = ([], m)
  read_all_messages storage ((index, stat) ∷ pairs) m =
      let (sms, m') = read_sms storage index m in
      let (others, m'') = read_all_messages storage pairs m' in
      (if sms.success then record sms { status = stat } ∷ others else others, m'')

  unfoldable pub refresh_with : ℕ → AtResponse → Service → M → Service × M
  unfolding parse_cmgl_response read_all_messages combine_multipart_messages update_message_cache
  refresh_with now response s m =
      if not response.success
      then (s, m)
      else (let (all_messages, m') = read_all_messages s.storage (parse_cmgl_response response) m in
          (update_message_cache (combine_multipart_messages now all_messages) s, m'))

  unfoldable pub refresh_cache : ℕ → Service → M → Service × M
  unfolding refresh_with
  refresh_cache now s m =
      let (answer, m') = modem.send_command (codes "AT+CMGL=4") m in
      elim answer [ err e ↦ (s, m') | ok response ↦ refresh_with now response s m' ]

  unfoldable pub list_and_decode_messages : ℕ → Service → M → List IncomingSms × Service × M
  unfolding refresh_cache
  list_and_decode_messages now s m =
      let (s', m') = refresh_cache now s m in (s'.message_cache, s', m')

  -- The loop of `delete_message` with the last error so far.
  unfoldable pub delete_all : Bytes → List ℕ → M → Bytes × M
  unfolding failure_text Commands.delete_message
  delete_all last_error [] m = (last_error, m)
  delete_all last_error (idx ∷ indices) m =
      let (answer, m') = modem.send_command (Commands.delete_message idx) m in
      elim answer [
        | err e ↦ (codes "Exception: " ++ what e, m')
        | ok response ↦ elim response.success [
          | true ↦ delete_all last_error indices m'
          | false ↦ delete_all (failure_text idx response) indices m'
        ]
      ]

  unfoldable pub delete_message : ℕ → Service → M → Bytes × M
  unfolding delete_all indices_to_delete
  delete_message index s m = delete_all [] (indices_to_delete index s.message_cache) m
