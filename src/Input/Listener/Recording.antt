-- ===== src/Input/Listener/Recording.antt =====
-- What a recording holds, and what its status shows.
use Prim.Native.Nat.{bit_and}
use clip_queue.Prelude.{
  ℕ, zero, suc, ◌-◌, ◌≤◌, ◌≡◌, refl, ℤ, Bool, not, List, [], ◌∷◌, ◌++◌, Option, none, some,
  if◌then◌else◌, All, length, length-drop, ltb, ◌%◌, ◌^◌, ◌==◌, take, drop, ap, arith, ◌∙◌,
}
use clip_queue.Input.Sequence.{RecordedKeyEvent, RecordedSequence}
use clip_queue.Input.Listener.{
  InputListener, KeyboardHookStruct, llkhf_injected, delta_ms, status_length, record_keyboard_event,
  get_sequence_recording_status,
}

-- A key event with its message and its time.
abbrev pub Key : Type 0
Key = KeyboardHookStruct × ℕ × ℕ

pub is_injected : KeyboardHookStruct → Bool
is_injected kb = not (bit_and kb.flags llkhf_injected == 0)

module _ {C : Type 0} where
  -- The key events from left to right.
  pub record_keys : List Key → InputListener C → InputListener C
  record_keys [] l = l
  record_keys ((kb, w_param, now) ∷ keys) l =
      record_keys keys (record_keyboard_event kb w_param now l)

-- The codes of the keys that no program has injected.
pub typed : List Key → List ℕ
typed [] = []
typed ((kb, w_param, now) ∷ keys) =
    let rest = typed keys in if is_injected kb then rest else kb.vk_code % 2 ^ 16 ∷ rest

pub AllShort : List RecordedKeyEvent → Type 0
AllShort = All (λ ev. ev.delay_ms ≤ 60000)

pub codes : List RecordedKeyEvent → List ℕ
codes [] = []
codes (ev ∷ events) = ev.vk ∷ codes events

-- The events of a finished recording; the error "no sequence events recorded" leaves none.
pub events_of : Option RecordedSequence → List RecordedKeyEvent
events_of none = []
events_of (some seq) = seq.events

take-drop {ℓ} : {A : Type ℓ} (n : ℕ) (xs : List A) → take n xs ++ drop n xs ≡ xs
take-drop zero xs = refl
take-drop (suc n) [] = refl
take-drop (suc n) (x ∷ xs) = ap (◌∷◌ x) (take-drop n xs)

-- Where the events that the status shows start.
start_of : ℤ → List RecordedKeyEvent → ℕ
start_of last_n events =
    if ltb (status_length last_n) (length events) then length events - status_length last_n else 0

shown :
    (last_n : ℤ) (events : List RecordedKeyEvent)
    → length events - length (drop (start_of last_n events) events) ≡ start_of last_n events
unfolding start_of
shown last_n events = ground (arith, length-drop (start_of last_n events) events)

shown_length :
    (last_n : ℤ) (events : List RecordedKeyEvent)
    → length (drop (start_of last_n events) events)
      ≡ (if ltb (status_length last_n) (length events) then status_length last_n else length events)
unfolding start_of
shown_length last_n events = ground (arith, length-drop (start_of last_n events) events)

module _ {C : Type 0} where
  taken : KeyboardHookStruct → ℕ → ℕ → InputListener C → RecordedKeyEvent
  taken kb w_param now l = record {
    vk = kb.vk_code % 2 ^ 16;
    scan_code = kb.scan_code % 2 ^ 16;
    hook_flags = kb.flags;
    message = w_param % 2 ^ 32;
    delay_ms = delta_ms l.sequence_last_event now;
  }

  -- The recording `l` has gained what `keys` stand for.
  abbrev Gained : List Key → InputListener C → InputListener C → Type 0
  Gained keys l l' =
      (new : List RecordedKeyEvent) × (l'.sequence_events ≡ l.sequence_events ++ new)
      × (codes new ≡ typed keys)
      × AllShort new

  -- The status shows how many events there are and the last of them: 20, or as many as were asked
  -- for by a positive number, or all if there are fewer.
  get_sequence_recording_status_lem :
      (last_n : ℤ) (l : InputListener C)
      → let status = get_sequence_recording_status last_n l in
        (status.event_count ≡ length l.sequence_events)
        × (take (length l.sequence_events - length status.events) l.sequence_events ++ status.events
            ≡ l.sequence_events)
        × (length status.events ≡ (
            if ltb (status_length last_n) (length l.sequence_events)
            then status_length last_n
            else length l.sequence_events))
  unfolding get_sequence_recording_status start_of
  get_sequence_recording_status_lem last_n l = (
    refl,
    ap (λ n. take n l.sequence_events ++ drop (start_of last_n l.sequence_events) l.sequence_events)
          (shown last_n l.sequence_events)
        ∙ take-drop (start_of last_n l.sequence_events) l.sequence_events,
    shown_length last_n l.sequence_events,
  )
