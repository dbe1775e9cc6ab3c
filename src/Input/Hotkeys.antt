-- ===== src/Input/Hotkeys.antt =====
-- platform/windows/host.go and input_signature.go: hotkeys as text, and the signatures made of them.
-- The functions of the package `strings` are arguments: `to_upper`, `split` at "+", `trim`, and
-- `sig_part`, what `TrimPrefix` leaves of a text with the prefix "sig:".
pub mod Legacy
use Prim.Native.Nat.{bit_or}
use clip_queue.Prelude.{
  ℕ, Bool, true, false, ◌||◌, String, List, [], ◌∷◌, ◌++◌, Option, none, some, if◌then◌else◌, ◌==◌,
  str_eq,
}
use clip_queue.Input.Signature.{
  InputSignature, ReadResult, read_ok, read_err, source_keyboard, mod_ctrl, mod_alt, mod_shift,
  mod_win, uint16_bytes, new_input_signature, signature_from_base64,
}

-- `keyMap`
abbrev pub key_map : List (String × ℕ)
key_map =
    ("A", 0x41)
    ∷ ("B", 0x42)
    ∷ ("C", 0x43)
    ∷ ("D", 0x44)
    ∷ ("E", 0x45)
    ∷ ("F", 0x46)
    ∷ ("G", 0x47)
    ∷ ("H", 0x48)
    ∷ ("I", 0x49)
    ∷ ("J", 0x4A)
    ∷ ("K", 0x4B)
    ∷ ("L", 0x4C)
    ∷ ("M", 0x4D)
    ∷ ("N", 0x4E)
    ∷ ("O", 0x4F)
    ∷ ("P", 0x50)
    ∷ ("Q", 0x51)
    ∷ ("R", 0x52)
    ∷ ("S", 0x53)
    ∷ ("T", 0x54)
    ∷ ("U", 0x55)
    ∷ ("V", 0x56)
    ∷ ("W", 0x57)
    ∷ ("X", 0x58)
    ∷ ("Y", 0x59)
    ∷ ("Z", 0x5A)
    ∷ ("0", 0x30)
    ∷ ("1", 0x31)
    ∷ ("2", 0x32)
    ∷ ("3", 0x33)
    ∷ ("4", 0x34)
    ∷ ("5", 0x35)
    ∷ ("6", 0x36)
    ∷ ("7", 0x37)
    ∷ ("8", 0x38)
    ∷ ("9", 0x39)
    ∷ ("F1", 0x70)
    ∷ ("F2", 0x71)
    ∷ ("F3", 0x72)
    ∷ ("F4", 0x73)
    ∷ ("F5", 0x74)
    ∷ ("F6", 0x75)
    ∷ ("F7", 0x76)
    ∷ ("F8", 0x77)
    ∷ ("F9", 0x78)
    ∷ ("F10", 0x79)
    ∷ ("F11", 0x7A)
    ∷ ("F12", 0x7B)
    ∷ ("VOLUMEMUTE", 0xAD)
    ∷ ("VOLUMEDOWN", 0xAE)
    ∷ ("VOLUMEUP", 0xAF)
    ∷ ("MEDIANEXTTRACK", 0xB0)
    ∷ ("MEDIAPREVTRACK", 0xB1)
    ∷ ("MEDIASTOP", 0xB2)
    ∷ ("MEDIAPLAYPAUSE", 0xB3)
    ∷ ("LAUNCHMAIL", 0xB4)
    ∷ ("LAUNCHMEDIASELECT", 0xB5)
    ∷ ("LAUNCHAPP1", 0xB6)
    ∷ ("LAUNCHAPP2", 0xB7)
    ∷ ("AUDIOVOLUMEMUTE", 0xAD)
    ∷ ("AUDIOVOLUMEDOWN", 0xAE)
    ∷ ("AUDIOVOLUMEUP", 0xAF)
    ∷ ("GRAVE", 0xC0)
    ∷ ("TILDE", 0xC0)
    ∷ []

-- `code, ok := keyMap[part]`
unfoldable pub key_code : String → List (String × ℕ) → Option ℕ
key_code name [] = none
key_code name ((key, code) ∷ keys) = if str_eq key name then some code else key_code name keys

-- The modifier that a part names.
unfoldable pub modifier_of : String → Option ℕ
modifier_of part =
    if str_eq part "CTRL" || str_eq part "CONTROL"
    then some mod_ctrl
    else if str_eq part "ALT"
    then some mod_alt
    else if str_eq part "SHIFT"
    then some mod_shift
    else if str_eq part "WIN"
    then some mod_win
    else none

-- One turn of the loop, on `mods` and `vk`.
unfoldable pub read_part : String → ℕ × ℕ → ℕ × ℕ
unfolding modifier_of key_code
read_part part (mods, vk) = elim (modifier_of part) [
  | some flag ↦ (bit_or mods flag, vk)
  | none ↦ elim (key_code part key_map) [ none ↦ (mods, vk) | some code ↦ (mods, code) ]
]

unfoldable pub read_parts : (String → String) → List String → ℕ × ℕ → ℕ × ℕ
unfolding read_part
read_parts trim [] found = found
read_parts trim (part ∷ parts) found = read_parts trim parts (read_part (trim part) found)

-- The ten bytes of `rawData`.
unfoldable pub legacy_raw_data : ℕ → List ℕ
unfolding uint16_bytes
legacy_raw_data vk = uint16_bytes vk ++ (0 ∷ 0 ∷ 0 ∷ 0 ∷ 0 ∷ 0 ∷ 0 ∷ 0 ∷ [])

-- `return sig` or `return nil`
unfoldable pub read_signature : ReadResult → Option InputSignature
read_signature (read_ok sig) = some sig
read_signature (read_err e) = none

module _ (fnv : List ℕ → ℕ) where
  -- The end of `parseHotkeyToSignature`.
  unfoldable pub legacy_signature : ℕ × ℕ → Option InputSignature
  unfolding legacy_raw_data new_input_signature
  legacy_signature (mods, vk) =
      if vk == 0
      then none
      else some (new_input_signature fnv source_keyboard (legacy_raw_data vk) mods)

  module _ (encode : List ℕ → String) (decode : String → Option (List ℕ))
      (to_upper : String → String) (split : String → List String) (trim : String → String)
      (sig_part : String → Option String) where
    unfoldable pub parse_hotkey_to_signature : String → Option InputSignature
    unfolding read_signature legacy_signature read_parts
    parse_hotkey_to_signature hotkey = elim (sig_part hotkey) [
      | some encoded ↦ read_signature (signature_from_base64 fnv encode decode encoded)
      | none ↦ legacy_signature (read_parts trim (split (to_upper hotkey)) (0, 0))
    ]
