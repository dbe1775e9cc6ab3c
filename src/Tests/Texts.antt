-- ===== src/Tests/Texts.antt =====
-- The theorems on hotkeys as text and on the configuration, applied to concrete texts.
use clip_queue.Prelude.{
  ℕ, zero, suc, ◌≡◌, ◌↔◌, refl, true, false, String, List, [], ◌∷◌, Option, some, none,
  if◌then◌else◌, str_eq, All, arith, eq_iff, pos, ◌≢◌,
}
use clip_queue.Config.Types.{Config, Macro}
use clip_queue.Config.Hotkeys
use clip_queue.Config.Hotkeys.Valid.{IsSound, validate_config_iff}
use clip_queue.Input.Signature.{
  InputSignature, source_keyboard, equals, bytes_equal, new_input_signature, compute_hash,
  uint16_bytes,
}
use clip_queue.Input.Hooks.{is_key_message, key_raw_data}
use clip_queue.Input.Hotkeys.{
  key_code, modifier_of, read_part, read_parts, legacy_raw_data, legacy_signature,
  parse_hotkey_to_signature,
}
use clip_queue.Input.Hotkeys.Legacy.{parse_hotkey_to_signature-equals}
use clip_queue.Config.Store.{
  Change, update, mutate, save_config, apply_change, fill, ensure_toggle_ui,
  ensure_toggle_queue_order, ensure_paste_next, ensure_toggle_queue, ensure_signatures,
}
use clip_queue.Config.Store.Saved.{apply_all}
use clip_queue.Input.Matcher.{
  new_signature_matcher, match_signature, register, append_entry, entry, find_equal,
}
use clip_queue.Input.Registration.{
  on_toggle_queue, register_configured_hotkeys, register_toggle_ui, register_toggle_queue,
  register_paste_next, register_toggle_queue_order, register_parsed, first_parsed, register_macros,
}
use clip_queue.Input.Registration.Allowed.{Allowed, register_configured_hotkeys-Allowed}
use clip_queue.Tests.Desk.{config}

abbrev no_hash : List ℕ → ℕ
no_hash bytes = 0

abbrev same_text : String → String
same_text t = t

abbrev two_parts : String → List String
two_parts t = "CTRL" ∷ "C" ∷ []

abbrev never : String → Option String
never t = none

abbrev legacy_c : InputSignature
legacy_c = record {
  hash = 0;
  raw_data = 67 ∷ 0 ∷ 0 ∷ 0 ∷ 0 ∷ 0 ∷ 0 ∷ 0 ∷ 0 ∷ 0 ∷ [];
  source_type = 0;
  modifier_state = 1;
}

-- One text, for the seven bytes of the signature of Ctrl+C.
abbrev ctrl_c_bytes : List ℕ
ctrl_c_bytes = 1 ∷ 4 ∷ 2 ∷ 2 ∷ 0 ∷ 67 ∷ 0 ∷ []

abbrev ctrl_c_text : String
ctrl_c_text = "AQQCAgBDAA=="

abbrev encode : List ℕ → String
encode bytes = if bytes_equal bytes ctrl_c_bytes then ctrl_c_text else ""

abbrev decode : String → Option (List ℕ)
decode t = if str_eq t ctrl_c_text then some ctrl_c_bytes else none

legacy_made :
    parse_hotkey_to_signature no_hash encode decode same_text two_parts same_text never "CTRL+C"
    ≡ some legacy_c
unfolding parse_hotkey_to_signature legacy_signature read_parts read_part modifier_of key_code
    legacy_raw_data new_input_signature compute_hash uint16_bytes
legacy_made = refl

key_down : is_key_message 0x0100 ≡ true
unfolding is_key_message
key_down = refl

parse_hotkey_to_signature-equals_example :
    equals legacy_c (
      new_input_signature no_hash source_keyboard
        (key_raw_data (record { vk_code = 67; scan_code = 46; flags = 0 }) 0x0100)
        1)
    ≡ false
parse_hotkey_to_signature-equals_example =
    parse_hotkey_to_signature-equals no_hash encode decode same_text two_parts same_text never
      "CTRL+C" legacy_c (record { vk_code = 67; scan_code = 46; flags = 0 }) 0x0100 1 refl
      legacy_made key_down

generated :
    Hotkeys.generate_signature_from_hotkey same_text two_parts same_text encode "CTRL+C"
    ≡ some ctrl_c_text
unfolding Hotkeys.generate_signature_from_hotkey Hotkeys.parse_hotkey Hotkeys.parse_parts
    Hotkeys.encode_hotkey Hotkeys.signature_bytes Hotkeys.modifier_of key_code uint16_bytes
    bytes_equal
generated = refl

abbrev greeting : Macro
greeting = record {
  name = "hello";
  hotkey = "CTRL+C";
  signature = ctrl_c_text;
  enabled = true;
  text = "hello";
  sequence = "";
  sequence_normalize_delays = false;
  sequence_delay_ms = pos 0;
  mode = "type";
}

abbrev with_macro : Config
with_macro = record (config "FIFO") { macros = greeting ∷ [] }

validate_config_iff_example :
    (Hotkeys.validate_config (str_eq ctrl_c_text) same_text with_macro ≡ none)
    ↔ All (IsSound (str_eq ctrl_c_text) same_text) (greeting ∷ [])
validate_config_iff_example = validate_config_iff (str_eq ctrl_c_text) same_text with_macro

-- A file with a configuration in it, on a disk whose first write fails.
abbrev Drive : Type 0
Drive = ℕ × Config

abbrev write_file : Config → Drive → Option String × Drive
write_file bytes (zero, old) = (some "disk full", (1, old))
write_file bytes (suc n, old) = (none, (suc (suc n), bytes))

abbrev marshal : Config → Config × Option String
marshal cfg = (cfg, none)

abbrev normalize : Config → Config
normalize bytes = bytes

abbrev file : Drive → Config
file drive = drive.1

abbrev two_changes : List Change
two_changes = update with_macro ∷ mutate (λ cfg. record cfg { macros = [] }) ∷ []

-- The first change is lost, the second is in memory and in the file.
changed :
    (apply_all
      (save_config marshal normalize write_file)
      two_changes
      (config "LIFO")
      (0, config "LIFO")).0
    ≡ record (config "LIFO") { macros = [] }
unfolding apply_all apply_change save_config
changed = refl

abbrev one_text : List ℕ → String
one_text bytes = "AQ=="

one_text_nonempty : (bytes : List ℕ) → bytes ≢ [] → one_text bytes ≢ ""
one_text_nonempty bytes h e = ground (arith, (eq_iff "AQ==" "").1 e)

-- The hotkey of the pasting has no signature yet.
abbrev unsigned : Config
unsigned = record (config "FIFO") {
  hotkeys = record {
    toggle_queue = "sig:x";
    paste_next = "";
    toggle_queue_order = "";
    toggle_ui = "";
    toggle_queue_display = "";
    paste_next_display = "Ctrl+C";
    toggle_queue_order_display = "";
    toggle_ui_display = "";
  };
}

unsigned_filled : (ensure_signatures same_text two_parts same_text one_text unsigned).0 ≡ true
unfolding ensure_signatures ensure_toggle_queue ensure_paste_next ensure_toggle_queue_order
    ensure_toggle_ui fill Hotkeys.generate_signature_from_hotkey Hotkeys.parse_hotkey
    Hotkeys.parse_parts Hotkeys.encode_hotkey Hotkeys.modifier_of key_code
unsigned_filled = refl

-- Every text stands for Ctrl+C as the host reads it.
abbrev always : String → Option InputSignature
always t = some legacy_c

queue_matched :
    match_signature legacy_c
      (register_configured_hotkeys always (config "FIFO") new_signature_matcher)
    ≡ some on_toggle_queue
unfolding match_signature register_configured_hotkeys new_signature_matcher register_toggle_ui
    register_toggle_queue register_paste_next register_toggle_queue_order register_parsed
    first_parsed register append_entry entry find_equal equals bytes_equal register_macros
queue_matched = refl

register_configured_hotkeys-Allowed_example : Allowed (config "FIFO") on_toggle_queue
register_configured_hotkeys-Allowed_example =
    register_configured_hotkeys-Allowed always (config "FIFO") legacy_c on_toggle_queue
      queue_matched
