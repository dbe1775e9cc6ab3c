-- ===== src/Controller/Calls.antt =====
-- The methods of the controller as the rest of the program calls them: the hotkeys, the tray, the
-- clipboard worker and the UI server.
use clip_queue.Prelude.{ℤ, String, List, [], ◌∷◌}
use clip_queue.Config.Types.{Config, Macro}
use clip_queue.Controller.State.{Platform, Sys, Action, new_controller}
use clip_queue.Controller.Queue
use clip_queue.Controller.Watch
use clip_queue.Controller.Paste
use clip_queue.Controller.Macros

-- The methods, as the rest of the program calls them.
pub data Call : Type 0 where
  clear_queue toggle_order toggle_queue on_clipboard_update paste_next : Call
  set_order_strategy : String → Call
  remove_item : ℤ → Call
  copy_item : String → Call
  execute_macro : Macro → Call

module _ {W : Type 0} (os : Platform W) where
  unfoldable pub perform : Call → Action W (Unit {0})
  perform clear_queue = Queue.clear_queue
  perform toggle_order = Queue.toggle_order
  perform toggle_queue = Queue.toggle_queue
  perform on_clipboard_update = Watch.on_clipboard_update os
  perform paste_next = Paste.paste_next os
  perform (set_order_strategy order) = Queue.set_order_strategy order
  perform (remove_item i) = Queue.remove_item i
  perform (copy_item id) = Paste.copy_item os id
  perform (execute_macro macro) = Macros.execute_macro os macro

  -- A history of calls.
  unfoldable pub run : List Call → Sys W → Sys W
  run [] s = s
  run (call ∷ calls) s = run calls (perform call s).1

-- The program at its start, as `main` creates it.
abbrev pub start : {W : Type 0} → Config → W → Sys W
start cfg w = record { controller = new_controller cfg; world = w; events = [] }
