-- ===== src/Input/Output.antt =====
-- platform/windows/input.go: the inputs that are made of a text, and how they are sent. What the
-- program does is a trace of pauses and sends; `answer i inputs` is what the call number `i` of
-- `SendInput` returns for the inputs, and `last_error i` the code that `GetLastError` gives after it.
-- A text is the list of its runes.
pub mod Chunks
pub mod Typing
pub mod Keys
pub mod Released
use Prim.Native.Nat.{bit_and, bit_or}
use clip_queue.Prelude.{
  ℕ, zero, suc, ◌+◌, ◌/◌, ◌%◌, ◌^◌, Bool, true, false, not, ◌&&◌, ◌||◌, String, List, [], ◌∷◌, ◌++◌,
  Option, none, some, if◌then◌else◌, ◌==◌, str_eq, length, take, drop,
}
use clip_queue.Input.Sequence.{
  KeyboardInput, Step, sleep_ms, send, keyeventf_keyup, keyeventf_scancode,
}
use clip_queue.Input.Hotkeys.{key_map, key_code}

abbrev pub vk_shift : ℕ
vk_shift = 0x10

abbrev pub vk_control : ℕ
vk_control = 0x11

abbrev pub vk_menu : ℕ
vk_menu = 0x12

abbrev pub vk_v : ℕ
vk_v = 0x56

abbrev pub keyeventf_unicode : ℕ
keyeventf_unicode = 0x0004

abbrev pub chunk_size : ℕ
chunk_size = 50

-- What `appendUnicodeRuneInputs` appends; `uint16(r)` drops the high bits of a rune.
unfoldable pub unicode_rune_inputs : ℕ → List KeyboardInput
unicode_rune_inputs r =
    record { wvk = 0; wscan = r % 2 ^ 16; dw_flags = keyeventf_unicode }
    ∷ record { wvk = 0; wscan = r % 2 ^ 16; dw_flags = bit_or keyeventf_unicode keyeventf_keyup }
    ∷ []

-- What `appendVirtualKeyInput` appends.
unfoldable pub virtual_key_input : ℕ → Bool → KeyboardInput
virtual_key_input vk key_up = record {
  wvk = vk;
  wscan = 0;
  dw_flags = if key_up then keyeventf_keyup else 0;
}

-- The error that `syscall.GetLastError()` is for a code; for 0 it is nil.
unfoldable pub get_last_error : ℕ → Option ℕ
get_last_error code = if code == 0 then none else some code

-- The loop over the chunks: `rest` is `inputs[i:]`, and `call` counts the calls. It goes on while
-- `i < len(inputs)`; `fuel` bounds its rounds.
unfoldable pub send_chunks :
    (ℕ → List KeyboardInput → ℕ) → (ℕ → ℕ) → ℕ → ℕ → List KeyboardInput → List Step × Option ℕ
unfolding get_last_error
send_chunks answer last_error zero call rest = ([], none)
send_chunks answer last_error (suc fuel) call [] = ([], none)
send_chunks answer last_error (suc fuel) call (input ∷ rest) =
    let chunk = take chunk_size (input ∷ rest) in
    let (steps, e) =
      send_chunks answer last_error fuel (call + 1) (drop chunk_size (input ∷ rest)) in
    if answer call chunk == length chunk
    then (send chunk ∷ sleep_ms 20 ∷ steps, e)
    else (send chunk ∷ [], get_last_error (last_error call))

unfoldable pub send_all :
    (ℕ → List KeyboardInput → ℕ) → (ℕ → ℕ) → List KeyboardInput → List Step × Option ℕ
send_all answer last_error inputs = send_chunks answer last_error (length inputs) 0 inputs

-- The keys of `modifierKeys`, and the releases of those that are down.
abbrev pub modifier_keys : List ℕ
modifier_keys = vk_shift ∷ vk_control ∷ vk_menu ∷ 0x5B ∷ 0x5C ∷ []

unfoldable pub release_down : (ℕ → Bool) → List ℕ → List KeyboardInput
unfolding virtual_key_input
release_down is_down [] = []
release_down is_down (vk ∷ keys) =
    let rest = release_down is_down keys in
    if is_down vk then virtual_key_input vk true ∷ rest else rest

unfoldable pub text_inputs : List ℕ → List KeyboardInput
text_inputs [] = []
text_inputs (r ∷ text) = unicode_rune_inputs r ++ text_inputs text

-- `TypeString`
unfoldable pub type_string :
    (ℕ → List KeyboardInput → ℕ) → (ℕ → ℕ) → (ℕ → Bool) → List ℕ → List Step × Option ℕ
unfolding send_all
type_string answer last_error is_down text =
    send_all answer last_error (release_down is_down modifier_keys ++ text_inputs text)

-- `if test { appendVirtualKeyInput(…) }`
unfoldable pub key_if : Bool → ℕ → Bool → List KeyboardInput
key_if test vk key_up = if test then virtual_key_input vk key_up ∷ [] else []

-- `mods & flag != 0`
unfoldable pub has_flag : ℕ → ℕ → Bool
has_flag mods flag = not (bit_and mods flag == 0)

-- The inputs of a rune with its virtual key, the modifiers and the scan code.
unfoldable pub mapped_inputs : ℕ → ℕ → ℕ → List KeyboardInput
unfolding key_if has_flag
mapped_inputs vk mods scan_code =
    key_if (has_flag mods 0x02) vk_control false
    ++ (key_if (has_flag mods 0x04) vk_menu false
        ++ (key_if (has_flag mods 0x01) vk_shift false
            ++ (record { wvk = vk; wscan = scan_code; dw_flags = keyeventf_scancode }
                ∷ record {
                  wvk = vk;
                  wscan = scan_code;
                  dw_flags = bit_or keyeventf_scancode keyeventf_keyup;
                }
                ∷ (key_if (has_flag mods 0x01) vk_shift true
                    ++ (key_if (has_flag mods 0x04) vk_menu true
                        ++ key_if (has_flag mods 0x02) vk_control true)))))

-- `unmappable || vk == 0 || scanCode == 0 || (mods&^byte(0x07)) != 0`
unfoldable pub falls_back : ℕ → ℕ → ℕ → ℕ → Bool
unfolding has_flag
falls_back raw vk mods scan_code = raw == 0xFFFF || vk == 0 || scan_code == 0 || has_flag mods 0xF8

-- One turn of the loop, with `VkKeyScan`'s answer in `raw`.
unfoldable pub scanned_inputs : (ℕ → ℕ) → ℕ → ℕ → List KeyboardInput
unfolding mapped_inputs falls_back
scanned_inputs map_virtual_key r raw =
    let vk = raw % 256 in
    let mods = (raw / 256) % 256 in
    let scan_code = map_virtual_key vk % 2 ^ 16 in
    if falls_back raw vk mods scan_code
    then unicode_rune_inputs r
    else mapped_inputs vk mods scan_code

-- `getForegroundKeyboardContext`, which gives the layout 0 if no window has the focus.
unfoldable pub foreground_layout : ℕ → (ℕ → ℕ) → ℕ
foreground_layout hwnd layout_of = if hwnd == 0 then 0 else layout_of hwnd

-- What the keyboard layouts of Windows answer.
pub record Layouts : Type 0 where
  pub vk_key_scan_ex : ℕ → ℕ → ℕ
  pub vk_key_scan : ℕ → ℕ
  pub map_virtual_key : ℕ → ℕ
  pub foreground : ℕ
  pub layout_of : ℕ → ℕ

unfoldable pub rune_inputs : Layouts → ℕ → List KeyboardInput
unfolding foreground_layout scanned_inputs
rune_inputs layouts r =
    let hkl = foreground_layout layouts.foreground layouts.layout_of in
    scanned_inputs layouts.map_virtual_key r
      ((if not (hkl == 0) then layouts.vk_key_scan_ex r hkl else layouts.vk_key_scan r) % 2 ^ 16)

unfoldable pub hardware_inputs : Layouts → List ℕ → List KeyboardInput
hardware_inputs layouts [] = []
hardware_inputs layouts (r ∷ text) = rune_inputs layouts r ++ hardware_inputs layouts text

-- `TypeStringHardware`
unfoldable pub type_string_hardware :
    (ℕ → List KeyboardInput → ℕ) → (ℕ → ℕ) → (ℕ → Bool) → Layouts → List ℕ → List Step × Option ℕ
unfolding send_all
type_string_hardware answer last_error is_down layouts text =
    send_all answer last_error (release_down is_down modifier_keys ++ hardware_inputs layouts text)
