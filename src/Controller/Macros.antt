-- ===== src/Controller/Macros.antt =====
-- internal/app/controller.go: `ExecuteMacro`.
use clip_queue.Prelude.{
  ℕ, ◌%◌, ◌^◌, ℤ, pos, negsuc, true, false, not, String, if◌then◌else◌, str_eq,
}
use clip_queue.Config.Types.{Macro}
use clip_queue.Clipboard.Content.{Content, text, zero_content}
use clip_queue.Controller.State.{
  no_sequence, unsupported_mode, macro_invoke, Platform, Action, pure, fail, finally, ignore,
  on_error, ◌>>=◌, ◌>>◌, gets, emit, call, pause,
}
use clip_queue.Controller.Queue.{add_self_event}

-- `if macro.SequenceDelayMs > 0 { opts.FixedDelayMs = uint32(macro.SequenceDelayMs) }`
unfoldable pub fixed_delay_ms : ℤ → ℕ
fixed_delay_ms (pos n) = n % 2 ^ 32
fixed_delay_ms (negsuc n) = 0

-- The item that the paste mode writes.
unfoldable pub macro_content : String → Content
unfolding zero_content
macro_content t = record zero_content { kind = text; text = t }

module _ {W : Type 0} (os : Platform W) where
  -- `case "paste"`
  unfoldable pub paste_macro : Macro → Action W (Unit {0})
  unfolding add_self_event macro_content
  paste_macro macro = do
    old_content ← call os.read
    call (os.write (macro_content macro.text))
    add_self_event os
    pause (os.sleep (pos 100))
    on_error (call os.send_ctrl_v) (ignore (call (os.write old_content)) >> add_self_event os)
    c ← gets (λ c. c)
    pause (os.sleep c.cfg.clipboard.restore_delay_ms)
    call (os.write old_content)
    add_self_event os

  -- The keys of the macro's own hotkey are let go before the replay.
  unfoldable pub release_hotkey : Macro → Action W (Unit {0})
  release_hotkey macro =
      if not (str_eq macro.hotkey "")
      then (ignore (call (os.release_hotkey_state macro.hotkey)) >> pause (os.sleep (pos 20)))
      else pure tt

  -- `case "sequence"`
  unfoldable pub sequence_macro : Macro → Action W (Unit {0})
  unfolding fixed_delay_ms release_hotkey
  sequence_macro macro = if str_eq macro.sequence "" then fail (no_sequence macro.name) else do
    release_hotkey macro
    call (
        os.play_sequence macro.sequence macro.sequence_normalize_delays
          (fixed_delay_ms macro.sequence_delay_ms))

  -- The `switch` on the mode.
  unfoldable pub run_macro : Macro → Action W (Unit {0})
  unfolding paste_macro sequence_macro
  run_macro macro =
      if str_eq macro.mode "type"
      then call (os.type_string macro.text)
      else if str_eq macro.mode "paste"
      then paste_macro macro
      else if str_eq macro.mode "type_hw"
      then call (os.type_string_hardware macro.text)
      else if str_eq macro.mode "sequence"
      then sequence_macro macro
      else fail (unsupported_mode macro.mode)

  unfoldable pub execute_macro : Macro → Action W (Unit {0})
  unfolding run_macro
  execute_macro macro = do
    emit (macro_invoke macro.name false)
    finally (run_macro macro) (emit (macro_invoke macro.name true))
