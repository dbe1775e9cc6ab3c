-- ===== src/Server/Handlers.antt =====
-- internal/ui/server/server.go: the HTTP handlers, but for the configuration and the two files that
-- are embedded. A request is its method, its parameters and its body as decoded, which is none when
-- it is no JSON of the type. `error_text` is `Error()` and `scan` is `Sscanf` with "%d".
use clip_queue.Prelude.{
  ℕ, ℤ, pos, negsuc, String, List, Option, none, some, if◌then◌else◌, ◌==◌, str_eq,
}
use clip_queue.Input.Listener.{SequenceRecordingStatus}
use clip_queue.Controller.State.{Platform, Action, Result, ok, err, Error, pure, gets}
use clip_queue.Controller.Queue.{toggle_queue, toggle_order, clear_queue, remove_item}
use clip_queue.Controller.Paste.{copy_item}
use clip_queue.Server.{HistoryItem, QueueState, build_history_dtos, queue_state}
use clip_queue.Server.Native.{
  CommandStepDto, PipelineDto, SequenceStop, native_parse_lab, native_build_lab, HostCalls, Reply,
  done, refused, message, native_start_sequence_recording, native_stop_sequence_recording,
  native_capture_hotkey, reply_of,
}

pub data Method : Type 0 where
  get post delete other_method : Method

pub data Body : Type 0 where
  message_body : String → Body
  error_body : String → Body
  history_body : List HistoryItem → Body
  queue_body : QueueState → Body
  pipeline_body : PipelineDto → Body
  command_body : List ℕ → Body
  stop_body : SequenceStop → Body
  status_body : SequenceRecordingStatus → Body
  hotkey_body : String × String → Body

pub record Response : Type 0 where
  pub status : ℕ
  pub body : Body

abbrev pub ok_response : Body → Response
ok_response body = record { status = 200; body = body }

abbrev pub bad_request : String → Response
bad_request text = record { status = 400; body = error_body text }

abbrev pub not_allowed : Response
not_allowed = record { status = 405; body = error_body "Method not allowed" }

abbrev pub server_error : String → Response
server_error text = record { status = 500; body = error_body text }

-- The parameter `last`: absent, or a number above zero.
unfoldable pub read_last : (String → Option ℤ) → String → Option ℕ
read_last scan last_str = if str_eq last_str "" then some 30 else elim (scan last_str) [
  | none ↦ none
  | some last ↦ elim last [ negsuc n ↦ none | pos n ↦ if n == 0 then none else some n ]
]

module _ (error_text : Error → String) where
  -- `if err := m; err != nil { 400 }`, and the answer when there is no error.
  unfoldable pub answer : {A : Type 0} → Response → Result A → Response
  answer fine (ok a) = fine
  answer fine (err e) = bad_request (error_text e)

  module _ {W : Type 0} where
    unfoldable pub respond : {A : Type 0} → Response → Action W A → Action W Response
    unfolding answer
    respond fine m s = let (r, s') = m s in (ok (answer fine r), s')

    -- A method without a result, and the state of the queue behind it.
    unfoldable pub and_queue_state : Action W (Unit {0}) → Action W Response
    and_queue_state m s =
        let after = (m s).1 in (ok (ok_response (queue_body (queue_state after.controller))), after)

    unfoldable pub handle_history_get : Action W Response
    handle_history_get = gets (λ c. ok_response (history_body (build_history_dtos c)))

    unfoldable pub handle_history_delete : (String → Option ℤ) → String → Action W Response
    handle_history_delete scan index_str =
        if str_eq index_str ""
        then pure (bad_request "index parameter required")
        else elim (scan index_str) [
          | none ↦ pure (bad_request "invalid index")
          | some index ↦ respond (ok_response (message_body "item removed")) (remove_item index)
        ]

    -- `handleHistory`, with the parameter `index`.
    unfoldable pub handle_history : (String → Option ℤ) → Method → String → Action W Response
    unfolding handle_history_get handle_history_delete
    handle_history scan get index_str = handle_history_get
    handle_history scan delete index_str = handle_history_delete scan index_str
    handle_history scan post index_str = pure not_allowed
    handle_history scan other_method index_str = pure not_allowed

    unfoldable pub handle_queue_clear : Method → Action W Response
    handle_queue_clear post s = (ok (ok_response (message_body "queue cleared")), (clear_queue s).1)
    handle_queue_clear _ s = pure not_allowed s

    unfoldable pub handle_queue_state : Method → Action W Response
    handle_queue_state get = gets (λ c. ok_response (queue_body (queue_state c)))
    handle_queue_state _ = pure not_allowed

    unfoldable pub handle_queue_toggle : Method → Action W Response
    unfolding and_queue_state
    handle_queue_toggle post = and_queue_state toggle_queue
    handle_queue_toggle _ = pure not_allowed

    unfoldable pub handle_queue_order_toggle : Method → Action W Response
    unfolding and_queue_state
    handle_queue_order_toggle post = and_queue_state toggle_order
    handle_queue_order_toggle _ = pure not_allowed

    unfoldable pub handle_copy : Platform W → Method → String → Action W Response
    unfolding respond
    handle_copy os post id =
        if str_eq id ""
        then pure (bad_request "id parameter required")
        else respond (ok_response (message_body "item copied to clipboard")) (copy_item os id)
    handle_copy os _ id = pure not_allowed

  -- The answer to a host without the method is 500; so is a failed call, but for the stop.
  unfoldable pub host_answer : {A : Type 0} → ℕ → (A → Body) → Reply A → Response
  host_answer status body (done a) = ok_response (body a)
  host_answer status body (refused e) = record { status = status; body = error_body (error_text e) }
  host_answer status body (message text) = server_error text

  module _ {H : Type 0} where
    unfoldable pub handle_sequence_start : Option (HostCalls H) → Method → H → Response × H
    unfolding host_answer
    handle_sequence_start host post h =
        let (r, h') = native_start_sequence_recording host h in (host_answer 500 message_body r, h')
    handle_sequence_start host _ h = (not_allowed, h)

    unfoldable pub handle_sequence_stop : Option (HostCalls H) → Method → H → Response × H
    unfolding host_answer
    handle_sequence_stop host post h =
        let (r, h') = native_stop_sequence_recording host h in (host_answer 400 stop_body r, h')
    handle_sequence_stop host _ h = (not_allowed, h)

    unfoldable pub sequence_status : Option (HostCalls H) → ℕ → H → Response × H
    unfolding host_answer
    sequence_status none last h = (server_error "Sequence status not supported on this platform", h)
    sequence_status (some host) last h =
        let (r, h') = host.get_sequence_recording_status last h in
        (host_answer 500 status_body (reply_of (λ status. status) r), h')

    unfoldable pub handle_sequence_status :
        (String → Option ℤ) → Option (HostCalls H) → Method → String → H → Response × H
    unfolding read_last sequence_status
    handle_sequence_status scan host get last_str h = elim (read_last scan last_str) [
      | none ↦ (bad_request "invalid last parameter", h)
      | some last ↦ sequence_status host last h
    ]
    handle_sequence_status scan host _ last_str h = (not_allowed, h)

    unfoldable pub handle_capture_hotkey : Option (HostCalls H) → Method → H → Response × H
    unfolding host_answer
    handle_capture_hotkey host post h =
        let (r, h') = native_capture_hotkey host h in (host_answer 500 hotkey_body r, h')
    handle_capture_hotkey host _ h = (not_allowed, h)

unfoldable pub handle_lab_parse : Method → Option (List ℕ) → Response
handle_lab_parse post none = bad_request "Invalid request body"
handle_lab_parse post (some command) = ok_response (pipeline_body (native_parse_lab command))
handle_lab_parse _ body = not_allowed

unfoldable pub handle_lab_build : Method → Option (List CommandStepDto) → Response
handle_lab_build post none = bad_request "Invalid request body"
handle_lab_build post (some steps) = ok_response (command_body (native_build_lab steps))
handle_lab_build _ body = not_allowed
