-- ===== src/Input/Listener.antt =====
-- platform/windows/input_listener.go: the two hooks as functions of the listener and the event. A
-- hook returns the new listener, whether it blocks the event, and the callback that it starts. What
-- the system answers to `isKeyDown` and `time.Now` is an argument. `C` is the type of the callbacks.
pub mod Recording
use Prim.Native.Nat.{bit_and}
use clip_queue.Prelude.{
  ℕ, ◌-◌, ◌/◌, ◌%◌, ◌^◌, ℤ, pos, negsuc, Bool, true, false, not, ◌||◌, List, [], ◌∷◌, ◌++◌, Option,
  none, some, if◌then◌else◌, ltb, ◌==◌, length, drop,
}
use clip_queue.Input.Signature.{InputSignature}
use clip_queue.Input.Matcher.{SignatureMatcher, new_signature_matcher}
use clip_queue.Input.Sequence.{RecordedKeyEvent, RecordedSequence}

-- A time is in nanoseconds; `none` for the last event is Go's zero time.
pub record InputListener (C : Type 0) : Type 0 where
  pub hwnd : ℕ
  pub matcher : SignatureMatcher C
  pub pending_mouse_hotkeys : List (ℕ × C)
  pub capture_mode : Bool
  pub capture_chan : Option InputSignature
  pub sequence_record_mode : Bool
  pub sequence_record_hkl : ℕ
  pub sequence_record_at : ℕ
  pub sequence_last_event : Option ℕ
  pub sequence_events : List RecordedKeyEvent

pub record SequenceRecordingStatus : Type 0 where
  pub active : Bool
  pub event_count : ℕ
  pub recorded_hkl : ℕ
  pub events : List RecordedKeyEvent

-- `KBDLLHOOKSTRUCT`, the fields that are read.
pub record KeyboardHookStruct : Type 0 where
  pub vk_code : ℕ
  pub scan_code : ℕ
  pub flags : ℕ

abbrev pub llkhf_injected : ℕ
llkhf_injected = 0x10

abbrev pub millisecond : ℕ
millisecond = 1_000_000

-- The listener, whether the event is blocked, and the callback that is started.
abbrev pub Reaction : Type 0 → Type 0
Reaction C = InputListener C × Bool × Option C

-- `if lastN <= 0 { lastN = 20 }`
unfoldable pub status_length : ℤ → ℕ
status_length (negsuc n) = 20
status_length (pos n) = if n == 0 then 20 else n

-- The time since the last event in milliseconds, between 0 and 60000. `-` stops at 0, as the
-- test for `d < 0` makes the code do.
unfoldable pub delta_ms : Option ℕ → ℕ → ℕ
delta_ms none now = 0
delta_ms (some last) now = let d = (now - last) / millisecond in if ltb 60000 d then 60000 else d

module _ {C : Type 0} where
  unfoldable pub new_input_listener : ℕ → InputListener C
  unfolding new_signature_matcher
  new_input_listener hwnd = record {
    hwnd = hwnd;
    matcher = new_signature_matcher;
    pending_mouse_hotkeys = [];
    capture_mode = false;
    capture_chan = none;
    sequence_record_mode = false;
    sequence_record_hkl = 0;
    sequence_record_at = 0;
    sequence_last_event = none;
    sequence_events = [];
  }

  -- `m[button] = callback`, `m[button]` and `delete(m, button)`
  unfoldable pub set_pending : ℕ → C → List (ℕ × C) → List (ℕ × C)
  set_pending button callback [] = (button, callback) ∷ []
  set_pending button callback ((b, c) ∷ pending) =
      if b == button then (b, callback) ∷ pending else (b, c) ∷ set_pending button callback pending

  unfoldable pub get_pending : ℕ → List (ℕ × C) → Option C
  get_pending button [] = none
  get_pending button ((b, c) ∷ pending) = if b == button then some c else get_pending button pending

  unfoldable pub delete_pending : ℕ → List (ℕ × C) → List (ℕ × C)
  delete_pending button [] = []
  delete_pending button ((b, c) ∷ pending) =
      let rest = delete_pending button pending in if b == button then rest else (b, c) ∷ rest

  unfoldable pub store_pending_mouse_hotkey : ℕ → C → InputListener C → InputListener C
  store_pending_mouse_hotkey button callback l = record l {
    pending_mouse_hotkeys = set_pending button callback l.pending_mouse_hotkeys;
  }

  unfoldable pub consume_pending_mouse_hotkey : ℕ → InputListener C → Option C × InputListener C
  consume_pending_mouse_hotkey button l = (
    get_pending button l.pending_mouse_hotkeys,
    record l { pending_mouse_hotkeys = delete_pending button l.pending_mouse_hotkeys },
  )

  unfoldable pub start_capture : InputListener C → InputListener C
  start_capture l = record l { capture_chan = none; capture_mode = true }

  unfoldable pub stop_capture : InputListener C → InputListener C
  stop_capture l = record l { capture_mode = false }

  -- `WaitForCapture` when its wait ends: with the captured signature, or by the timeout.
  unfoldable pub wait_for_capture : InputListener C → Option InputSignature × InputListener C
  unfolding stop_capture
  wait_for_capture l = elim l.capture_chan [
    | some sig ↦ (some sig, record l { capture_chan = none })
    | none ↦ (none, stop_capture l)
  ]

  unfoldable pub start_sequence_recording : ℕ → ℕ → InputListener C → InputListener C
  start_sequence_recording hkl now l = record l {
    sequence_events = [];
    sequence_record_hkl = hkl;
    sequence_record_at = now;
    sequence_last_event = none;
    sequence_record_mode = true;
  }

  -- `none` is the error "no sequence events recorded".
  unfoldable pub stop_sequence_recording :
      InputListener C → Option RecordedSequence × InputListener C
  stop_sequence_recording l = (
    (if length l.sequence_events == 0
        then none
        else some (record {
          version = 1;
          recorded_at = l.sequence_record_at;
          recorded_hkl = l.sequence_record_hkl;
          events = l.sequence_events;
        })),
    record l { sequence_record_mode = false },
  )

  unfoldable pub get_sequence_recording_status : ℤ → InputListener C → SequenceRecordingStatus
  get_sequence_recording_status last_n l =
      let total = length l.sequence_events in
      let start = if ltb (status_length last_n) total then total - status_length last_n else 0 in
      record {
        active = l.sequence_record_mode;
        event_count = total;
        recorded_hkl = l.sequence_record_hkl;
        events = drop start l.sequence_events;
      }

  unfoldable pub record_keyboard_event :
      KeyboardHookStruct → ℕ → ℕ → InputListener C → InputListener C
  unfolding delta_ms
  record_keyboard_event kb w_param now l =
      if not l.sequence_record_mode || not (bit_and kb.flags llkhf_injected == 0)
      then l
      else record l {
        sequence_events =
            l.sequence_events
            ++ record {
              vk = kb.vk_code % 2 ^ 16;
              scan_code = kb.scan_code % 2 ^ 16;
              hook_flags = kb.flags;
              message = w_param % 2 ^ 32;
              delay_ms = delta_ms l.sequence_last_event now;
            }
              ∷ [];
        sequence_last_event = some now;
      }
