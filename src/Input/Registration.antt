-- ===== src/Input/Registration.antt =====
-- platform/windows/host.go: `registerConfiguredHotkeys`. A callback is named by what it does.
-- `parse` is `parseHotkeyToSignature`.
pub mod Allowed
use Prim.Native.String.{◌++◌ as str_append}
use clip_queue.Prelude.{
  Bool, true, false, not, ◌&&◌, ◌||◌, String, List, [], ◌∷◌, Option, none, some, if◌then◌else◌,
  str_eq,
}
use clip_queue.Config.Types.{Config, Macro}
use clip_queue.Input.Signature.{InputSignature}
use clip_queue.Input.Matcher.{SignatureMatcher, register}

pub data Callback : Type 0 where
  on_toggle_ui on_toggle_queue on_paste_next on_toggle_queue_order : Callback
  run_macro : Macro → Callback

-- `if sig != nil { matcher.Register(*sig, id, …) }`
unfoldable pub register_parsed :
    Option InputSignature
    → String
    → Callback
    → SignatureMatcher Callback
    → SignatureMatcher Callback
register_parsed none id callback m = m
register_parsed (some sig) id callback m = register sig id callback m

-- A second text is parsed if the first gives nil.
unfoldable pub first_parsed : Option InputSignature → Option InputSignature → Option InputSignature
first_parsed none other = other
first_parsed (some sig) other = some sig

-- The text that the ID of a macro is made of.
unfoldable pub macro_text : Macro → Option InputSignature → String
macro_text macro none = macro.hotkey
macro_text macro (some sig) = if str_eq macro.signature "" then macro.hotkey else macro.signature

module _ (parse : String → Option InputSignature) where
  unfoldable pub register_toggle_ui : Config → SignatureMatcher Callback → SignatureMatcher Callback
  register_toggle_ui cfg m =
      if str_eq cfg.hotkeys.toggle_ui ""
      then m
      else register_parsed (parse cfg.hotkeys.toggle_ui) "toggle_ui" on_toggle_ui m

  unfoldable pub register_toggle_queue :
      Config → SignatureMatcher Callback → SignatureMatcher Callback
  unfolding first_parsed
  register_toggle_queue cfg m =
      if cfg.features.enable_queue
      then register_parsed (first_parsed (parse cfg.hotkeys.toggle_queue) (parse "Alt+C"))
          "toggle_queue" on_toggle_queue m
      else m

  unfoldable pub register_paste_next :
      Config → SignatureMatcher Callback → SignatureMatcher Callback
  unfolding first_parsed
  register_paste_next cfg m =
      if cfg.features.enable_queue
      then register_parsed (first_parsed (parse cfg.hotkeys.paste_next) (parse "Alt+V"))
          "paste_next" on_paste_next m
      else m

  unfoldable pub register_toggle_queue_order :
      Config → SignatureMatcher Callback → SignatureMatcher Callback
  register_toggle_queue_order cfg m =
      if cfg.features.enable_queue && not (str_eq cfg.hotkeys.toggle_queue_order "")
      then register_parsed (parse cfg.hotkeys.toggle_queue_order) "toggle_queue_order"
          on_toggle_queue_order m
      else m

  -- The signature of a macro, or the hotkey if there is none or it cannot be parsed.
  unfoldable pub macro_signature : Macro → Option InputSignature
  unfolding first_parsed
  macro_signature macro =
      if str_eq macro.signature ""
      then parse macro.hotkey
      else first_parsed (parse macro.signature) (parse macro.hotkey)

  unfoldable pub register_macro : Macro → SignatureMatcher Callback → SignatureMatcher Callback
  unfolding macro_signature macro_text
  register_macro macro m =
      if not macro.enabled
      then m
      else register_parsed (macro_signature macro)
          (str_append "macro:" (macro_text macro (parse macro.signature))) (run_macro macro) m

  unfoldable pub register_macros :
      List Macro → SignatureMatcher Callback → SignatureMatcher Callback
  register_macros [] m = m
  register_macros (macro ∷ macros) m = register_macros macros (register_macro macro m)

  -- `registerConfiguredHotkeys`
  unfoldable pub register_configured_hotkeys :
      Config → SignatureMatcher Callback → SignatureMatcher Callback
  register_configured_hotkeys cfg m =
      let own =
        register_toggle_queue_order cfg
          (register_paste_next cfg (register_toggle_queue cfg (register_toggle_ui cfg m))) in
      if cfg.features.enable_macros then register_macros cfg.macros own else own
