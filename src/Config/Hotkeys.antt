-- ===== src/Config/Hotkeys.antt =====
-- internal/config/config.go: the signatures that the configuration makes of hotkeys, and the checks
-- of a loaded configuration. The functions of the standard library are arguments, as for the host.
pub mod Valid
use Prim.Native.Nat.{bit_or}
use clip_queue.Prelude.{
  ℕ, ◌+◌, ◌%◌, Bool, true, false, not, ◌&&◌, ◌||◌, String, List, [], ◌∷◌, ◌++◌, Option, none, some,
  if◌then◌else◌, ◌==◌, str_eq,
}
use clip_queue.Config.Types.{Config, HotkeysConfig, Macro}
use clip_queue.Input.Signature.{uint16_bytes}
use clip_queue.Input.Hotkeys.{key_map, key_code}

-- The constants as the `const` block defines them: `SourceKeyboard` is `iota` in its fifth line.
abbrev pub mod_alt : ℕ
mod_alt = 1

abbrev pub mod_control : ℕ
mod_control = 2

abbrev pub mod_shift : ℕ
mod_shift = 4

abbrev pub mod_win : ℕ
mod_win = 8

abbrev pub source_keyboard : ℕ
source_keyboard = 4

pub data HotkeyResult : Type 0 where
  found : ℕ → ℕ → HotkeyResult
  unknown_key : String → HotkeyResult
  no_key : HotkeyResult

unfoldable pub modifier_of : String → Option ℕ
modifier_of part =
    if str_eq part "CTRL" || str_eq part "CONTROL"
    then some mod_control
    else if str_eq part "ALT"
    then some mod_alt
    else if str_eq part "SHIFT"
    then some mod_shift
    else if str_eq part "WIN"
    then some mod_win
    else none

-- The loop on `modifiers` and `vk`; `vk` is `none` while `foundKey` is false.
unfoldable pub parse_parts : (String → String) → List String → ℕ → Option ℕ → HotkeyResult
unfolding modifier_of key_code
parse_parts trim [] modifiers none = no_key
parse_parts trim [] modifiers (some vk) = found modifiers vk
parse_parts trim (part ∷ parts) modifiers vk = elim (modifier_of (trim part)) [
  | some flag ↦ parse_parts trim parts (bit_or modifiers flag) vk
  | none ↦ elim (key_code (trim part) key_map) [
    | none ↦ unknown_key (trim part)
    | some code ↦ parse_parts trim parts modifiers (some code)
  ]
]

module _ (to_upper : String → String) (split : String → List String) (trim : String → String) where
  -- `parseHotkey`
  unfoldable pub parse_hotkey : String → HotkeyResult
  unfolding parse_parts
  parse_hotkey hotkey = parse_parts trim (split (to_upper hotkey)) 0 none

  -- The bytes that are written to `buf`.
  unfoldable pub signature_bytes : ℕ → ℕ → List ℕ
  unfolding uint16_bytes
  signature_bytes modifiers vk =
      1 ∷ source_keyboard ∷ modifiers % 256 ∷ (uint16_bytes 2 ++ uint16_bytes vk)

  unfoldable pub encode_hotkey : (List ℕ → String) → HotkeyResult → Option String
  unfolding signature_bytes
  encode_hotkey encode (found modifiers vk) = some (encode (signature_bytes modifiers vk))
  encode_hotkey encode (unknown_key part) = none
  encode_hotkey encode no_key = none

  -- `generateSignatureFromHotkey`; `none` is an error. The sum that it computes is not used.
  unfoldable pub generate_signature_from_hotkey : (List ℕ → String) → String → Option String
  unfolding encode_hotkey
  generate_signature_from_hotkey encode hotkey = encode_hotkey encode (parse_hotkey hotkey)

-- The modes of `validModes`.
unfoldable pub valid_mode : String → Bool
valid_mode mode =
    str_eq mode "type" || str_eq mode "paste" || str_eq mode "type_hw" || str_eq mode "sequence"

pub data MacroError : Type 0 where
  empty_hotkey empty_signature invalid_signature invalid_sequence invalid_mode : ℕ → MacroError

-- `is_base64` says whether `DecodeString` takes the text; `trim_sig` removes a prefix "sig:".
module _ (is_base64 : String → Bool) (trim_sig : String → String) where
  -- The body of the loop of `validateConfig`.
  unfoldable pub validate_macro : ℕ → Macro → Option MacroError
  unfolding valid_mode
  validate_macro i macro =
      if str_eq macro.hotkey ""
      then some (empty_hotkey i)
      else if str_eq macro.signature ""
      then some (empty_signature i)
      else if not (is_base64 (trim_sig macro.signature))
      then some (invalid_signature i)
      else if not (str_eq macro.sequence "") && not (is_base64 macro.sequence)
      then some (invalid_sequence i)
      else if not (valid_mode macro.mode)
      then some (invalid_mode i)
      else none

  unfoldable pub validate_macros : ℕ → List Macro → Option MacroError
  validate_macros i [] = none
  validate_macros i (macro ∷ macros) = elim (validate_macro i macro) [
    | some e ↦ some e
    | none ↦ validate_macros (i + 1) macros
  ]

  -- `validateConfig`
  unfoldable pub validate_config : Config → Option MacroError
  unfolding validate_macros
  validate_config cfg = validate_macros 0 cfg.macros
