-- ===== src/Tests/Control.antt =====
-- The theorems on internal/app/controller.go, applied on a desktop.
use clip_queue.Prelude.{◌≡◌, refl, inr, true, false, arith, [], ◌∷◌, some}
use clip_queue.Controller.State.{ok, ◌>>=◌}
use clip_queue.Controller.Queue
use clip_queue.Controller.Watch
use clip_queue.Controller.Paste
use clip_queue.Controller.Update.{Observed, numbered, on_clipboard_update-Observed}
use clip_queue.Controller.Calls.{Call, run, start}
use clip_queue.Controller.Invariant.{IsValid}
use clip_queue.Controller.Invariant.Methods.{run-new_controller-IsValid}
use clip_queue.Controller.Ring.{record_all, is_self_event-window}
use clip_queue.Controller.Suppress.{Unmoved, IsQuiet, paste_next-Unmoved, copy_item-Unmoved}
use clip_queue.Controller.Delivery.{pastes, paste_next_lem, fifo_delivery, lifo_delivery}
use clip_queue.Tests.Desk.{desk, desk-Working, config, note, empty_desk, busy}

fifo-IsValid : IsValid (busy "FIFO").controller
fifo-IsValid = record {
  history_fits = omega arith;
  ring_full = refl;
  ring_fixed = refl;
  ring_room = omega arith;
  order_known = inr refl;
}

desk-IsQuiet : IsQuiet desk
desk-IsQuiet w = refl

run-new_controller-IsValid_example :
    IsValid
      (run desk
        (Call.toggle_queue ∷ Call.on_clipboard_update ∷ Call.toggle_order ∷ Call.paste_next ∷ [])
        (start (config "FIFO") empty_desk)).controller
run-new_controller-IsValid_example =
    run-new_controller-IsValid desk (config "FIFO") empty_desk
      (Call.toggle_queue ∷ Call.on_clipboard_update ∷ Call.toggle_order ∷ Call.paste_next ∷ [])

paste_runs : Paste.paste_next desk (busy "FIFO") ≡ (ok tt, (Paste.paste_next desk (busy "FIFO")).1)
unfolding Paste.paste_next Paste.take_next Paste.dequeue Paste.paste_item
    Paste.resolve_image_payload Paste.restore Queue.add_self_event ◌>>=◌
paste_runs = refl

paste_next-Unmoved_example : Unmoved desk (Paste.paste_next desk (busy "FIFO")).1
paste_next-Unmoved_example =
    paste_next-Unmoved desk desk-IsQuiet (busy "FIFO") (Paste.paste_next desk (busy "FIFO")).1
      fifo-IsValid paste_runs

copy_runs :
    Paste.copy_item desk "a" (busy "FIFO") ≡ (ok tt, (Paste.copy_item desk "a" (busy "FIFO")).1)
unfolding Paste.copy_item Paste.find_item Paste.resolve_image_payload Paste.mark_copied ◌>>=◌
copy_runs = refl

copy_item-Unmoved_example : Unmoved desk (Paste.copy_item desk "a" (busy "FIFO")).1
copy_item-Unmoved_example =
    copy_item-Unmoved desk desk-IsQuiet "a" (busy "FIFO") (Paste.copy_item desk "a" (busy "FIFO")).1
      fifo-IsValid copy_runs

fifo_next : Paste.dequeue "FIFO" (note "a" ∷ note "b" ∷ []) ≡ some (note "a", note "b" ∷ [])
unfolding Paste.dequeue
fifo_next = refl

paste_next_example :
    let r = Paste.paste_next desk (busy "FIFO") in
    (r.0 ≡ ok tt)
    × (r.1.controller.queue ≡ note "b" ∷ [])
    × (r.1.controller.queue_enabled ≡ true)
    × (r.1.controller.order_strategy ≡ "FIFO")
    × (r.1.world.clipboard ≡ note "old")
    × (r.1.world.pasted ≡ note "a" ∷ [])
paste_next_example =
    paste_next_lem desk desk-Working (busy "FIFO") (note "a") (note "b" ∷ []) refl fifo_next refl

fifo_delivery_example :
    let s = pastes desk 2 (busy "FIFO") in
    (s.controller.queue ≡ [])
    × (s.world.pasted ≡ note "b" ∷ note "a" ∷ [])
    × (s.world.clipboard ≡ note "old")
fifo_delivery_example = fifo_delivery desk desk-Working (busy "FIFO") refl refl (refl, (refl, tt))

lifo_delivery_example :
    let s = pastes desk 2 (busy "LIFO") in
    (s.controller.queue ≡ [])
    × (s.world.pasted ≡ note "a" ∷ note "b" ∷ [])
    × (s.world.clipboard ≡ note "old")
lifo_delivery_example = lifo_delivery desk desk-Working (busy "LIFO") refl refl (refl, (refl, tt))

is_self_event-window_example :
    Queue.is_self_event (record_all (1 ∷ 2 ∷ 3 ∷ 4 ∷ 5 ∷ 6 ∷ 7 ∷ 9 ∷ []) (busy "FIFO").controller) 9
    ≡ Queue.contains (1 ∷ 2 ∷ 3 ∷ 4 ∷ 5 ∷ 6 ∷ 7 ∷ 9 ∷ []) 9
is_self_event-window_example =
    is_self_event-window (busy "FIFO").controller 9 (1 ∷ 2 ∷ 3 ∷ 4 ∷ 5 ∷ 6 ∷ 7 ∷ 9 ∷ [])
      fifo-IsValid refl

is_foreign : Queue.is_self_event (busy "FIFO").controller 7 ≡ false
unfolding Queue.is_self_event Queue.contains
is_foreign = refl

on_clipboard_update-Observed_example :
    Observed
      (numbered 7 (note "old"))
      (busy "FIFO").controller
      (Watch.on_clipboard_update desk (busy "FIFO")).1.controller
on_clipboard_update-Observed_example =
    on_clipboard_update-Observed desk (busy "FIFO") (note "old") empty_desk is_foreign refl refl
