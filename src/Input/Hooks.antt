-- ===== src/Input/Hooks.antt =====
-- platform/windows/input_listener.go and hook.go: the callbacks of the two low-level hooks.
pub mod Clicks
pub mod Modifiers
use Prim.Native.Nat.{bit_or}
use clip_queue.Prelude.{
  ℕ, ◌+◌, ◌/◌, ◌%◌, ℤ, pos, negsuc, Bool, true, false, not, ◌&&◌, ◌||◌, List, [], ◌∷◌, ◌++◌, Option,
  none, some, if◌then◌else◌, ◌==◌,
}
use clip_queue.Input.Signature.{
  InputSignature, source_keyboard, source_mouse_button, source_mouse_wheel, mod_ctrl, mod_alt,
  mod_shift, mod_win, mouse_button_edge_down, mouse_button_edge_up, new_input_signature,
  decode_mouse_button_raw_data, uint16_bytes,
}
use clip_queue.Input.Matcher.{match_signature}
use clip_queue.Input.Listener.{
  InputListener, KeyboardHookStruct, Reaction, store_pending_mouse_hotkey,
  consume_pending_mouse_hotkey, record_keyboard_event,
}

-- `isModifierKey`: the two keys of Control, Alt, Shift and Windows.
unfoldable pub is_modifier_key : ℕ → Bool
is_modifier_key vk =
    vk == 0xA2
    || vk == 0xA3
    || vk == 0xA4
    || vk == 0xA5
    || vk == 0xA0
    || vk == 0xA1
    || vk == 0x5B
    || vk == 0x5C

-- `if down { mods |= flag }`
unfoldable pub add_modifier : Bool → ℕ → ℕ → ℕ
add_modifier down flag mods = if down then bit_or mods flag else mods

-- `getCurrentModifiers`, of the keys that are down.
unfoldable pub get_current_modifiers : (ℕ → Bool) → ℕ
unfolding add_modifier
get_current_modifiers is_key_down = add_modifier (is_key_down 0x5B || is_key_down 0x5C) mod_win (
    add_modifier (is_key_down 0xA0 || is_key_down 0xA1) mod_shift (
      add_modifier (is_key_down 0xA4 || is_key_down 0xA5) mod_alt
        (add_modifier (is_key_down 0xA2 || is_key_down 0xA3) mod_ctrl 0)))

-- `WM_KEYDOWN`, `WM_SYSKEYDOWN`, `WM_KEYUP` and `WM_SYSKEYUP`.
unfoldable pub is_key_message : ℕ → Bool
is_key_message m = m == 0x0100 || m == 0x0104 || m == 0x0101 || m == 0x0105

-- The four bytes of a `uint32`, the low one first.
unfoldable pub uint32_bytes : ℕ → List ℕ
unfolding uint16_bytes
uint32_bytes n = uint16_bytes n ++ uint16_bytes (n / 65536)

-- The raw data of a key event: key, scan code, flags and message.
unfoldable pub key_raw_data : KeyboardHookStruct → ℕ → List ℕ
unfolding uint16_bytes uint32_bytes
key_raw_data kb w_param =
    uint16_bytes kb.vk_code
    ++ (uint16_bytes kb.scan_code ++ (uint32_bytes kb.flags ++ uint16_bytes w_param))

-- The fourth or fifth button, or `byte(xButton + 3)`.
unfoldable pub x_button : ℕ → ℕ
x_button mouse_data =
    let x = (mouse_data / 65536) % 65536 in
    if x == 1 then 4 else if x == 2 then 5 else (x + 3) % 256

-- The wheel's `delta` and its direction.
unfoldable pub wheel_raw_data : ℕ → ℕ → List ℕ
unfolding uint16_bytes
wheel_raw_data mouse_data direction = uint16_bytes (mouse_data / 65536) ++ direction ∷ []

-- The `switch` of the mouse hook; `none` leaves `shouldProcess` false.
unfoldable pub mouse_event : ℕ → ℕ → Option (ℕ × List ℕ)
unfolding x_button wheel_raw_data
mouse_event w_param mouse_data =
    if w_param == 0x0201
    then some (source_mouse_button, 1 ∷ mouse_button_edge_down ∷ [])
    else if w_param == 0x0204
    then some (source_mouse_button, 2 ∷ mouse_button_edge_down ∷ [])
    else if w_param == 0x0207
    then some (source_mouse_button, 3 ∷ mouse_button_edge_down ∷ [])
    else if w_param == 0x020B
    then some (source_mouse_button, x_button mouse_data ∷ mouse_button_edge_down ∷ [])
    else if w_param == 0x0202
    then some (source_mouse_button, 1 ∷ mouse_button_edge_up ∷ [])
    else if w_param == 0x0205
    then some (source_mouse_button, 2 ∷ mouse_button_edge_up ∷ [])
    else if w_param == 0x0208
    then some (source_mouse_button, 3 ∷ mouse_button_edge_up ∷ [])
    else if w_param == 0x020C
    then some (source_mouse_button, x_button mouse_data ∷ mouse_button_edge_up ∷ [])
    else if w_param == 0x020A
    then some (source_mouse_wheel, wheel_raw_data mouse_data 0)
    else if w_param == 0x020E
    then some (source_mouse_wheel, wheel_raw_data mouse_data 1)
    else none

module _ {C : Type 0} where
  -- The event goes on to the next hook.
  abbrev pub pass : InputListener C → Reaction C
  pass l = (l, false, none)

  -- `captureChan <- sig`, which has room for one, and the end of the capture.
  unfoldable pub capture : InputSignature → InputListener C → Reaction C
  capture sig l = (
    record l {
      capture_mode = false;
      capture_chan = (elim l.capture_chan [ none ↦ some sig | some old ↦ some old ]);
    },
    true,
    none,
  )

  -- The callback that was found is started, and the event blocked.
  unfoldable pub fire : Option C → InputListener C → Reaction C
  fire none l = (l, false, none)
  fire (some callback) l = (l, true, some callback)

  module _ (fnv : List ℕ → ℕ) where
    -- A key event that is no modifier, behind the recorder.
    unfoldable pub key_event : KeyboardHookStruct → ℕ → ℕ → InputListener C → Reaction C
    unfolding capture fire
    key_event kb w_param mods l =
        let sig = new_input_signature fnv source_keyboard (key_raw_data kb w_param) mods in
        if l.capture_mode then capture sig l else fire (match_signature sig l.matcher) l

    -- The callback of `setKeyboardHook`, with the modifiers and the time at the event.
    unfoldable pub keyboard_hook : ℤ → ℕ → KeyboardHookStruct → ℕ → ℕ → InputListener C → Reaction C
    unfolding key_event record_keyboard_event is_modifier_key is_key_message
    keyboard_hook (negsuc n) w_param kb mods now l = pass l
    keyboard_hook (pos n) w_param kb mods now l =
        if not (is_key_message w_param)
        then pass l
        else if is_modifier_key kb.vk_code
        then pass (record_keyboard_event kb w_param now l)
        else key_event kb w_param mods (record_keyboard_event kb w_param now l)

    -- A press or a release that was found, or the match of the event itself.
    unfoldable pub press : ℕ → Option C → Reaction C → InputListener C → Reaction C
    unfolding store_pending_mouse_hotkey
    press button (some callback) otherwise l =
        (store_pending_mouse_hotkey button callback l, true, none)
    press button none otherwise l = otherwise

    unfoldable pub release : Option C → Reaction C → InputListener C → Reaction C
    release (some callback) otherwise l = (l, true, some callback)
    release none otherwise l = otherwise

    -- The matching of a mouse button, behind the capture.
    unfoldable pub button_event : ℕ → ℕ → InputSignature → ℕ → InputListener C → Reaction C
    unfolding press release fire consume_pending_mouse_hotkey
    button_event button edge sig mods l =
        if edge == mouse_button_edge_down
        then press button
            (match_signature
              (new_input_signature fnv source_mouse_button (button ∷ mouse_button_edge_up ∷ [])
                mods)
              l.matcher)
            (fire (match_signature sig l.matcher) l) l
        else if edge == mouse_button_edge_up
        then (let (pending, rest) = consume_pending_mouse_hotkey button l in
            release pending (fire (match_signature sig rest.matcher) rest) rest)
        else fire (match_signature sig l.matcher) l

    -- The rest of the mouse hook, for an event with its source and raw data.
    unfoldable pub mouse_signature_event : ℕ → List ℕ → ℕ → InputListener C → Reaction C
    unfolding button_event capture fire
    mouse_signature_event source_type raw_data mods l =
        let sig = new_input_signature fnv source_type raw_data mods in
        let decoded =
          if source_type == source_mouse_button
          then decode_mouse_button_raw_data raw_data
          else none in
        elim decoded [
          | none ↦ if l.capture_mode then capture sig l else fire (match_signature sig l.matcher) l
          | some (button, edge) ↦
              if l.capture_mode
              then (if edge == mouse_button_edge_down then (l, true, none) else capture sig l)
              else button_event button edge sig mods l
        ]

    -- The callback of `setMouseHook`.
    unfoldable pub mouse_hook : ℤ → ℕ → ℕ → ℕ → InputListener C → Reaction C
    mouse_hook (negsuc n) w_param mouse_data mods l = pass l
    mouse_hook (pos n) w_param mouse_data mods l = elim (mouse_event w_param mouse_data) [
      | none ↦ pass l
      | some (source_type, raw_data) ↦ mouse_signature_event source_type raw_data mods l
    ]
