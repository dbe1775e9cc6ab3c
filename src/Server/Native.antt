-- ===== src/Server/Native.antt =====
-- internal/ui/server/native_bridge.go: what the web view calls, but for the configuration. The host
-- is what the code takes it for, an interface, or none when it does not have the methods.
use clip_queue.Prelude.{
  ℕ, ℤ, pos, negsuc, String, List, [], Option, none, some, map, length, if◌then◌else◌, ◌==◌,
}
use clip_queue.Parser.{CommandStep, Token, parse, to_string}
use clip_queue.Input.Sequence.{RecordedSequence}
use clip_queue.Input.Listener.{SequenceRecordingStatus}
use clip_queue.Controller.State.{Platform, Action, Result, ok, err, Error, pure, gets, ◌>>◌}
use clip_queue.Controller.Queue.{toggle_queue, toggle_order, clear_queue, remove_item}
use clip_queue.Controller.Paste.{copy_item}
use clip_queue.Server.{
  UiSnapshot, HistoryItem, QueueState, get_ui_snapshot, build_history_dtos, queue_state,
}

pub record CommandStepDto : Type 0 where
  pub command : Token
  pub args : List Token
  pub operator : Token

pub record PipelineDto : Type 0 where
  pub steps : List CommandStepDto
  pub original : List ℕ

pub record SequenceStop : Type 0 where
  pub sequence : String
  pub event_count : ℕ
  pub recorded_hkl : ℕ

module _ {W : Type 0} where
  unfoldable pub native_toggle_queue : Action W UiSnapshot
  native_toggle_queue = do toggle_queue; gets get_ui_snapshot

  unfoldable pub native_toggle_queue_order : Action W UiSnapshot
  native_toggle_queue_order = do toggle_order; gets get_ui_snapshot

  unfoldable pub native_clear_queue : Action W UiSnapshot
  native_clear_queue = do clear_queue; gets get_ui_snapshot

  unfoldable pub native_copy_history_item : Platform W → String → Action W UiSnapshot
  native_copy_history_item os id = do copy_item os id; gets get_ui_snapshot

  unfoldable pub native_get_history : Action W (List HistoryItem)
  native_get_history = gets build_history_dtos

  unfoldable pub native_get_queue_state : Action W QueueState
  native_get_queue_state = gets queue_state

  unfoldable pub native_remove_queue_item : ℤ → Action W String
  native_remove_queue_item index = do remove_item index; pure "item removed"

unfoldable pub step_dto : CommandStep → CommandStepDto
step_dto step = record { command = step.command; args = step.args; operator = step.operator }

unfoldable pub step_of : CommandStepDto → CommandStep
step_of step = record { command = step.command; args = step.args; operator = step.operator }

-- `parser.Parse` never fails.
unfoldable pub native_parse_lab : List ℕ → PipelineDto
unfolding step_dto
native_parse_lab command =
    let pipeline = parse command in
    record { steps = map step_dto pipeline.steps; original = pipeline.original }

unfoldable pub native_build_lab : List CommandStepDto → List ℕ
unfolding step_of
native_build_lab steps = to_string (record { steps = map step_of steps; original = [] })

-- The three methods of the host on the recorder and the one on hotkeys, with its state `H`.
pub record HostCalls (H : Type 0) : Type 0 where
  pub start_sequence_recording : H → Option String × H
  pub stop_sequence_recording : H → Result (RecordedSequence × String) × H
  pub get_sequence_recording_status : ℕ → H → Result SequenceRecordingStatus × H
  pub capture_hotkey_with_display : ℕ → H → Result (String × String) × H

-- What a call gives, and the error for a host without the method.
pub data Reply (A : Type 0) : Type 0 where
  done : A → Reply A
  refused : Error → Reply A
  message : String → Reply A

abbrev pub reply_of : {A B : Type 0} → (A → B) → Result A → Reply B
reply_of f (ok a) = done (f a)
reply_of f (err e) = refused e

unfoldable pub sequence_stop : RecordedSequence × String → SequenceStop
sequence_stop (seq, encoded) = record {
  sequence = encoded;
  event_count = length seq.events;
  recorded_hkl = seq.recorded_hkl;
}

-- `last <= 0` asks for thirty events.
unfoldable pub wanted_last : ℤ → ℕ
wanted_last (negsuc n) = 30
wanted_last (pos n) = if n == 0 then 30 else n

module _ {H : Type 0} where
  unfoldable pub native_start_sequence_recording : Option (HostCalls H) → H → Reply String × H
  native_start_sequence_recording none h =
      (message "Sequence recording not supported on this platform", h)
  native_start_sequence_recording (some host) h =
      let (e, h') = host.start_sequence_recording h in
      (elim e [ none ↦ done "sequence recording started" | some text ↦ message text ], h')

  unfoldable pub native_stop_sequence_recording : Option (HostCalls H) → H → Reply SequenceStop × H
  unfolding sequence_stop
  native_stop_sequence_recording none h =
      (message "Sequence recording not supported on this platform", h)
  native_stop_sequence_recording (some host) h =
      let (r, h') = host.stop_sequence_recording h in (reply_of sequence_stop r, h')

  unfoldable pub native_get_sequence_status :
      Option (HostCalls H) → ℤ → H → Reply SequenceRecordingStatus × H
  unfolding wanted_last
  native_get_sequence_status none last h =
      (message "Sequence status not supported on this platform", h)
  native_get_sequence_status (some host) last h =
      let (r, h') = host.get_sequence_recording_status (wanted_last last) h in
      (reply_of (λ status. status) r, h')

  -- The time-out of five seconds, in nanoseconds.
  unfoldable pub native_capture_hotkey : Option (HostCalls H) → H → Reply (String × String) × H
  native_capture_hotkey none h = (message "Hotkey capture not supported on this platform", h)
  native_capture_hotkey (some host) h =
      let (r, h') = host.capture_hotkey_with_display 5000000000 h in
      (reply_of (λ captured. captured) r, h')
