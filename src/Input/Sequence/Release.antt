-- ===== src/Input/Sequence/Release.antt =====
-- A replay leaves no key down.
use Prim.Native.Nat.{bit_and}
use clip_queue.Prelude.{
  ℕ, ◌≡◌, refl, Bool, true, false, not, List, [], ◌∷◌, ◌++◌, Option, none, some, map, if◌then◌else◌,
  ◌==◌, Bool-cases, inl, inr, subst, ap, ◌∙◌, ◌↔◌, arith,
}
use clip_queue.Input.Sequence.Held.{key_of, releases, held_inputs, held_after}
use clip_queue.Input.Sequence.{
  KeyState, RecordedKeyEvent, SequencePlaybackOptions, Step, sleep_ms, send, keyeventf_scancode,
  RecordedSequence, play_sequence, play_recorded_sequence_with_options, keyeventf_keyup,
  keyeventf_extendedkey, is_up, is_extended, same_key, is_active, activate, deactivate, track,
  key_state, with_flag, sequence_event_to_input, release_input, play_events, cleanup,
}

-- The flags of the input for an event.
event_flags : Bool → Bool → ℕ
unfolding with_flag
event_flags up ext =
    with_flag ext keyeventf_extendedkey (with_flag up keyeventf_keyup keyeventf_scancode)

extended_flag :
    (up ext : Bool) → not (bit_and (event_flags up ext) keyeventf_extendedkey == 0) ≡ ext
unfolding event_flags
extended_flag true true = refl
extended_flag true false = refl
extended_flag false true = refl
extended_flag false false = refl

keyup_flag : (up ext : Bool) → not (bit_and (event_flags up ext) keyeventf_keyup == 0) ≡ up
unfolding event_flags
keyup_flag true true = refl
keyup_flag true false = refl
keyup_flag false true = refl
keyup_flag false false = refl

key_of-event : (ev : RecordedKeyEvent) → key_of (sequence_event_to_input ev) ≡ key_state ev
unfolding key_of sequence_event_to_input key_state
key_of-event ev = ground (arith, extended_flag (is_up ev) (is_extended ev))

releases-event : (ev : RecordedKeyEvent) → releases (sequence_event_to_input ev) ≡ is_up ev
unfolding releases sequence_event_to_input event_flags
releases-event ev = keyup_flag (is_up ev) (is_extended ev)

key_of-release : (ks : KeyState) → key_of (release_input ks) ≡ ks
unfolding key_of release_input
key_of-release ks = ground (arith, extended_flag true ks.extended)

releases-release : (ks : KeyState) → releases (release_input ks) ≡ true
unfolding releases release_input event_flags
releases-release ks = keyup_flag true ks.extended

same_key_iff : (a b : KeyState) → (same_key a b ≡ true) ↔ (a ≡ b)
unfolding same_key
same_key_iff a b = (λ h. ground arith, λ h. ground arith)

is_active-activate :
    (k ks : KeyState) (keys : List KeyState)
    → is_active ks (activate k keys) ≡ (if same_key k ks then true else is_active ks keys)
unfolding activate is_active
is_active-activate k ks keys = elim (Bool-cases (is_active k keys)) [
  | inl present ↦ elim (Bool-cases (same_key k ks)) [
    | inl same ↦
        rw (present, same)
          (subst (λ x. is_active x keys ≡ true) ((same_key_iff k ks).0 same) present)
    | inr other ↦ rw (present, other)
  ]
  | inr absent ↦ rw absent
]

is_active-deactivate :
    (k ks : KeyState) (keys : List KeyState)
    → is_active ks (deactivate k keys) ≡ (if same_key k ks then false else is_active ks keys)
unfolding deactivate is_active
is_active-deactivate k ks [] = ground arith
is_active-deactivate k ks (x ∷ keys) =
    grind (
      arith,
      is_active-deactivate k ks keys,
      same_key_iff x k,
      same_key_iff x ks,
      same_key_iff k ks,
    )

is_active-track :
    (ev : RecordedKeyEvent) (ks : KeyState) (keys : List KeyState)
    → is_active ks (track ev keys)
      ≡ (if same_key (key_state ev) ks then not (is_up ev) else is_active ks keys)
unfolding track
is_active-track ev ks keys =
    ground (
      arith,
      is_active-activate (key_state ev) ks keys,
      is_active-deactivate (key_state ev) ks keys,
    )

held-play_events :
    (opts : SequencePlaybackOptions) (events : List RecordedKeyEvent) (keys : List KeyState)
    (ks : KeyState)
    → held_after ks (play_events opts events keys).0 (is_active ks keys)
      ≡ is_active ks (play_events opts events keys).1
unfolding held_after play_events
held-play_events opts [] keys ks = refl
held-play_events opts (ev ∷ events) keys ks = ground (
  arith,
  key_of-event ev,
  releases-event ev,
  is_active-track ev ks keys,
  held-play_events opts events (track ev keys) ks,
)

held-play_events_start :
    (opts : SequencePlaybackOptions) (events : List RecordedKeyEvent) (ks : KeyState)
    → held_after ks (play_events opts events []).0 false
      ≡ is_active ks (play_events opts events []).1
unfolding is_active
held-play_events_start opts events ks = held-play_events opts events [] ks

held-release :
    (keys : List KeyState) (ks : KeyState) (held : Bool)
    → held_inputs ks (map release_input keys) held ≡ (if is_active ks keys then false else held)
unfolding held_inputs is_active
held-release [] ks held = refl
held-release (k ∷ keys) ks held = ground (
  arith,
  key_of-release k,
  releases-release k,
  held-release keys ks (if same_key k ks then false else held),
)

held-cleanup :
    (keys : List KeyState) (ks : KeyState)
    → held_after ks (cleanup keys) (is_active ks keys) ≡ false
unfolding held_after cleanup
held-cleanup [] ks = unfold is_active in refl
held-cleanup (k ∷ keys) ks = held-release (k ∷ keys) ks (is_active ks (k ∷ keys)) ∙ ground arith

held-append :
    (ks : KeyState) (steps more : List Step) (held : Bool)
    → held_after ks (steps ++ more) held ≡ held_after ks more (held_after ks steps held)
unfolding held_after
held-append ks [] more held = refl
held-append ks (sleep_ms d ∷ steps) more held = held-append ks steps more held
held-append ks (send inputs ∷ steps) more held =
    held-append ks steps more (held_inputs ks inputs held)

play_sequence-releases :
    (answer last_error : ℕ → ℕ) (opts : SequencePlaybackOptions) (events : List RecordedKeyEvent)
    (ks : KeyState)
    → held_after ks (play_sequence answer last_error opts events).0 false ≡ false
unfolding play_sequence
play_sequence-releases answer last_error opts [] ks = unfold held_after in refl
play_sequence-releases answer last_error opts (ev ∷ events) ks =
    held-append ks _ (cleanup (play_events opts (ev ∷ events) []).1) false
    ∙ ap (held_after ks (cleanup (play_events opts (ev ∷ events) []).1))
        (held-play_events_start opts (ev ∷ events) ks)
    ∙ held-cleanup (play_events opts (ev ∷ events) []).1 ks

-- Whatever is recorded and whatever the sends report: if the inputs of the trace take effect, a key
-- that is up before the replay is up after it.
pub play_recorded_sequence-releases :
    (answer last_error : ℕ → ℕ) (seq : Option RecordedSequence) (opts : SequencePlaybackOptions)
    (ks : KeyState)
    → held_after ks (play_recorded_sequence_with_options answer last_error seq opts).0 false ≡ false
unfolding play_recorded_sequence_with_options
play_recorded_sequence-releases answer last_error none opts ks = unfold held_after in refl
play_recorded_sequence-releases answer last_error (some seq) opts ks =
    play_sequence-releases answer last_error opts seq.events ks
