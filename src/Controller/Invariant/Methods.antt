-- ===== src/Controller/Invariant/Methods.antt =====
-- Every method of the controller keeps the invariant.
use clip_queue.Prelude.{ℤ, pos, negsuc, String, List, [], ◌∷◌, Option, none, some}
use clip_queue.Config.Types.{Config, Macro}
use clip_queue.Clipboard.Content.{Content}
use clip_queue.Controller.State.{Platform, Sys}
use clip_queue.Controller.Queue
use clip_queue.Controller.Watch
use clip_queue.Controller.Paste
use clip_queue.Controller.Macros
use clip_queue.Controller.Keeps.{Keeps}
use clip_queue.Controller.Invariant.{IsValid, new_controller-IsValid, valid_rules}
use clip_queue.Controller.Calls.{
  Call, clear_queue, toggle_order, toggle_queue, on_clipboard_update, paste_next,
  set_order_strategy, remove_item, copy_item, execute_macro, perform, run, start,
}

module _ {W : Type 0} where
  clear_queue-IsValid : Keeps {W = W} IsValid Queue.clear_queue
  unfolding Queue.clear_queue
  clear_queue-IsValid = search valid_rules depth 10

  toggle_order-IsValid : Keeps {W = W} IsValid Queue.toggle_order
  unfolding Queue.toggle_order
  toggle_order-IsValid = search valid_rules depth 10

  toggle_queue-IsValid : Keeps {W = W} IsValid Queue.toggle_queue
  unfolding Queue.toggle_queue
  toggle_queue-IsValid = search valid_rules depth 10

  set_order_strategy-IsValid :
      (order : String) → Keeps {W = W} IsValid (Queue.set_order_strategy order)
  unfolding Queue.set_order_strategy
  set_order_strategy-IsValid order = search valid_rules depth 10

  remove_item-IsValid : (i : ℤ) → Keeps {W = W} IsValid (Queue.remove_item i)
  unfolding Queue.remove_item
  remove_item-IsValid (pos i) = search valid_rules depth 10
  remove_item-IsValid (negsuc n) = search valid_rules depth 10

  store_content-IsValid : (content : Content) → Keeps {W = W} IsValid (Watch.store_content content)
  unfolding Watch.store_content
  store_content-IsValid content = search valid_rules depth 10

  apply_resolved-IsValid :
      (id : String) (resolved : Content)
      → Keeps {W = W} IsValid (Paste.apply_resolved_image_payload id resolved)
  unfolding Paste.apply_resolved_image_payload
  apply_resolved-IsValid id resolved = search valid_rules depth 10

  pub take_next-IsValid : Keeps {W = W} IsValid Paste.take_next
  unfolding Paste.take_next
  take_next-IsValid = search valid_rules depth 12

ruleset step_rules = (valid_rules, store_content-IsValid, apply_resolved-IsValid, take_next-IsValid)

module _ {W : Type 0} where
  settle-IsValid :
      (o : Option String) (content : Content) → Keeps {W = W} IsValid (Watch.settle o content)
  unfolding Watch.settle
  settle-IsValid none content = search step_rules
  settle-IsValid (some last_id) content = search step_rules depth 10

  observe-IsValid : (content : Content) → Keeps {W = W} IsValid (Watch.observe content)
  unfolding Watch.observe
  observe-IsValid content = search (step_rules, settle-IsValid) depth 10

module _ {W : Type 0} (os : Platform W) where
  pub add_self_event-IsValid : Keeps IsValid (Queue.add_self_event os)
  unfolding Queue.add_self_event
  add_self_event-IsValid = search valid_rules

  read_image_payload-IsValid : (item : Content) → Keeps IsValid (Paste.read_image_payload os item)
  unfolding Paste.read_image_payload
  read_image_payload-IsValid item = search step_rules depth 20

  pub resolve_image_payload-IsValid :
      (item : Content) → Keeps IsValid (Paste.resolve_image_payload os item)
  unfolding Paste.resolve_image_payload
  resolve_image_payload-IsValid item = search (step_rules, read_image_payload-IsValid) depth 20

  paste_item-IsValid : (item : Content) → Keeps IsValid (Paste.paste_item os item)
  unfolding Paste.paste_item Paste.restore
  paste_item-IsValid item =
      search (step_rules, resolve_image_payload-IsValid, add_self_event-IsValid) depth 20

  paste_next-IsValid : Keeps IsValid (Paste.paste_next os)
  unfolding Paste.paste_next
  paste_next-IsValid = search (step_rules, paste_item-IsValid)

  copy_item-IsValid : (id : String) → Keeps IsValid (Paste.copy_item os id)
  unfolding Paste.copy_item Paste.mark_copied
  copy_item-IsValid id = search (step_rules, resolve_image_payload-IsValid) depth 20

  paste_macro-IsValid : (macro : Macro) → Keeps IsValid (Macros.paste_macro os macro)
  unfolding Macros.paste_macro
  paste_macro-IsValid macro = search (step_rules, add_self_event-IsValid) depth 20

  sequence_macro-IsValid : (macro : Macro) → Keeps IsValid (Macros.sequence_macro os macro)
  unfolding Macros.sequence_macro
  sequence_macro-IsValid macro = search step_rules depth 20

  execute_macro-IsValid : (macro : Macro) → Keeps IsValid (Macros.execute_macro os macro)
  unfolding Macros.execute_macro
  execute_macro-IsValid macro =
      search (step_rules, paste_macro-IsValid, sequence_macro-IsValid) depth 20

  on_clipboard_update-IsValid : Keeps IsValid (Watch.on_clipboard_update os)
  unfolding Watch.on_clipboard_update
  on_clipboard_update-IsValid = search (step_rules, observe-IsValid) depth 20

module _ {W : Type 0} (os : Platform W) where
  pub perform-IsValid : (call : Call) → Keeps IsValid (perform os call)
  unfolding perform
  perform-IsValid clear_queue = clear_queue-IsValid
  perform-IsValid toggle_order = toggle_order-IsValid
  perform-IsValid toggle_queue = toggle_queue-IsValid
  perform-IsValid on_clipboard_update = on_clipboard_update-IsValid os
  perform-IsValid paste_next = paste_next-IsValid os
  perform-IsValid (set_order_strategy order) = set_order_strategy-IsValid order
  perform-IsValid (remove_item i) = remove_item-IsValid i
  perform-IsValid (copy_item id) = copy_item-IsValid os id
  perform-IsValid (execute_macro macro) = execute_macro-IsValid os macro

  run-IsValid :
      (calls : List Call) (s : Sys W) → IsValid s.controller → IsValid (run os calls s).controller
  unfolding run
  run-IsValid [] s v = v
  run-IsValid (call ∷ calls) s v =
      run-IsValid calls (perform os call s).1 ((perform-IsValid call).at s v)

  -- From a new controller, after any sequence of method calls that run one after the other, and
  -- whatever the platform answers to them: the history holds at most 50 items, the index of the
  -- ring of own clipboard changes lies inside the ring, whose size is the declared one, and the
  -- order is "LIFO" or "FIFO".
  pub run-new_controller-IsValid :
      (cfg : Config) (w : W) (calls : List Call) → IsValid (run os calls (start cfg w)).controller
  run-new_controller-IsValid cfg w calls = run-IsValid calls _ (new_controller-IsValid cfg)
