-- ===== src/Input/Sequence.antt =====
-- platform/windows/input_sequence.go: the replay of recorded key events. The pauses and the inputs
-- that are sent form a trace; `answer i` is what `SendInput` returns for the event number `i`, and
-- `last_error i` what `GetLastError` gives after it. The set of keys that are down is a list; the
-- order in which Go visits it at the end is the order of the list.
pub mod Held
pub mod Release
use Prim.Native.Nat.{bit_and, bit_or}
use mathlib.Core.Option
use clip_queue.Prelude.{
  ℕ, ◌+◌, Bool, true, false, not, ◌&&◌, ◌||◌, String, List, [], ◌∷◌, ◌++◌, Option, none, some, map,
  if◌then◌else◌, ltb, ◌==◌,
}

abbrev pub llkhf_extended : ℕ
llkhf_extended = 0x01

abbrev pub keyeventf_extendedkey : ℕ
keyeventf_extendedkey = 0x0001

abbrev pub keyeventf_keyup : ℕ
keyeventf_keyup = 0x0002

abbrev pub keyeventf_scancode : ℕ
keyeventf_scancode = 0x0008

abbrev pub wm_keyup : ℕ
wm_keyup = 0x0101

abbrev pub wm_syskeyup : ℕ
wm_syskeyup = 0x0105

pub record RecordedKeyEvent : Type 0 where
  pub vk : ℕ
  pub scan_code : ℕ
  pub hook_flags : ℕ
  pub message : ℕ
  pub delay_ms : ℕ

pub record RecordedSequence : Type 0 where
  pub version : ℕ
  pub recorded_at : ℕ
  pub recorded_hkl : ℕ
  pub events : List RecordedKeyEvent

pub record SequencePlaybackOptions : Type 0 where
  pub normalize_delays : Bool
  pub fixed_delay_ms : ℕ

-- The fields of `INPUT` that the program sets; all are of type `INPUT_KEYBOARD`.
pub record KeyboardInput : Type 0 where
  pub wvk : ℕ
  pub wscan : ℕ
  pub dw_flags : ℕ

pub record KeyState : Type 0 where
  pub vk : ℕ
  pub scan_code : ℕ
  pub extended : Bool

pub data Step : Type 0 where
  sleep_ms : ℕ → Step
  send : List KeyboardInput → Step

pub data PlaybackError : Type 0 where
  sequence_is_nil : PlaybackError
  no_events : PlaybackError
  send_failed : ℕ → PlaybackError

-- `ev.Message == WM_KEYUP || ev.Message == WM_SYSKEYUP`
unfoldable pub is_up : RecordedKeyEvent → Bool
is_up ev = ev.message == wm_keyup || ev.message == wm_syskeyup

unfoldable pub is_extended : RecordedKeyEvent → Bool
is_extended ev = not (bit_and ev.hook_flags llkhf_extended == 0)

-- `flags |= bit` under a test.
unfoldable pub with_flag : Bool → ℕ → ℕ → ℕ
with_flag set_it bit flags = if set_it then bit_or flags bit else flags

unfoldable pub sequence_event_to_input : RecordedKeyEvent → KeyboardInput
unfolding is_up is_extended with_flag
sequence_event_to_input ev = record {
  wvk = ev.vk;
  wscan = ev.scan_code;
  dw_flags =
      with_flag (is_extended ev) keyeventf_extendedkey
        (with_flag (is_up ev) keyeventf_keyup keyeventf_scancode);
}

unfoldable pub key_state : RecordedKeyEvent → KeyState
unfolding is_extended
key_state ev = record { vk = ev.vk; scan_code = ev.scan_code; extended = is_extended ev }

abbrev pub same_bool : Bool → Bool → Bool
same_bool true b = b
same_bool false b = not b

unfoldable pub same_key : KeyState → KeyState → Bool
same_key a b = (a.vk == b.vk) && (a.scan_code == b.scan_code) && same_bool a.extended b.extended

-- `activeKeys[ks]`
unfoldable pub is_active : KeyState → List KeyState → Bool
is_active ks [] = false
is_active ks (k ∷ keys) = if same_key k ks then true else is_active ks keys

-- `activeKeys[ks] = true` and `delete(activeKeys, ks)`
unfoldable pub activate : KeyState → List KeyState → List KeyState
unfolding is_active
activate ks keys = if is_active ks keys then keys else ks ∷ keys

unfoldable pub deactivate : KeyState → List KeyState → List KeyState
deactivate ks [] = []
deactivate ks (k ∷ keys) = let rest = deactivate ks keys in if same_key k ks then rest else k ∷ rest

-- The pause before an event.
unfoldable pub delay_of : SequencePlaybackOptions → RecordedKeyEvent → ℕ
delay_of opts ev =
    let wanted =
      if opts.normalize_delays
      then (if ltb 10000 opts.fixed_delay_ms then 10000 else opts.fixed_delay_ms)
      else ev.delay_ms in
    if ltb wanted 1 then 1 else wanted

-- The keys that are down after an event.
unfoldable pub track : RecordedKeyEvent → List KeyState → List KeyState
unfolding is_up key_state activate deactivate
track ev keys = if is_up ev then deactivate (key_state ev) keys else activate (key_state ev) keys

-- The loop: the steps, and the keys that are down at its end.
unfoldable pub play_events :
    SequencePlaybackOptions → List RecordedKeyEvent → List KeyState → List Step × List KeyState
play_events opts [] keys = ([], keys)
play_events opts (ev ∷ events) keys =
    let (steps, left) = play_events opts events (track ev keys) in
    (sleep_ms (delay_of opts ev) ∷ send (sequence_event_to_input ev ∷ []) ∷ steps, left)

-- `firstErr` of the loop: the first error behind a send that did not send its one input. The error
-- 0 is nil.
unfoldable pub first_error : (ℕ → ℕ) → (ℕ → ℕ) → ℕ → List RecordedKeyEvent → Option ℕ
first_error answer last_error i [] = none
first_error answer last_error i (ev ∷ events) =
    let rest = first_error answer last_error (i + 1) events in
    if answer i == 1 || last_error i == 0 then rest else some (last_error i)

-- The release of a key in the deferred clean-up.
unfoldable pub release_input : KeyState → KeyboardInput
unfolding with_flag
release_input ks = record {
  wvk = ks.vk;
  wscan = ks.scan_code;
  dw_flags =
      with_flag ks.extended keyeventf_extendedkey (bit_or keyeventf_scancode keyeventf_keyup);
}

-- The deferred clean-up sends one batch, if a key is down.
unfoldable pub cleanup : List KeyState → List Step
cleanup [] = []
cleanup (ks ∷ keys) = send (map release_input (ks ∷ keys)) ∷ []

-- `PlayRecordedSequenceWithOptions` behind its first test, on the events of the sequence.
unfoldable pub play_sequence :
    (ℕ → ℕ)
    → (ℕ → ℕ)
    → SequencePlaybackOptions
    → List RecordedKeyEvent
    → List Step × Option PlaybackError
unfolding play_events first_error cleanup
play_sequence answer last_error opts [] = ([], some no_events)
play_sequence answer last_error opts (ev ∷ events) =
    let (steps, left) = play_events opts (ev ∷ events) [] in
    (steps ++ cleanup left, Option.map send_failed (first_error answer last_error 0 (ev ∷ events)))

-- `none` is the nil pointer.
unfoldable pub play_recorded_sequence_with_options :
    (ℕ → ℕ)
    → (ℕ → ℕ)
    → Option RecordedSequence
    → SequencePlaybackOptions
    → List Step × Option PlaybackError
unfolding play_sequence
play_recorded_sequence_with_options answer last_error none opts = ([], some sequence_is_nil)
play_recorded_sequence_with_options answer last_error (some seq) opts =
    play_sequence answer last_error opts seq.events
