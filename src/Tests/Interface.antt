-- ===== src/Tests/Interface.antt =====
-- The theorems on the UI's server and on the worker of main.go, applied to concrete states.
use clip_queue.Prelude.{
  ◌+◌, ◌<◌, ◌≤◌, ◌≡◌, refl, Bool, true, false, String, List, [], ◌∷◌, map, reverse, arith,
}
use clip_queue.Controller.State.{Controller, new_controller}
use clip_queue.Controller.Queue.{get_history, get_queue, get_order_strategy}
use clip_queue.Controller.Paste.{has_id}
use clip_queue.Server.{build_history_dtos, history_item}
use clip_queue.Server.Next.{pastes_next, build_history_dtos-marks}
use clip_queue.Start.{new_worker, notify, Turn, worked, run_turns}
use clip_queue.Start.Notified.{run_turns-calls, notifications, turns_of_worker}
use clip_queue.Tests.Desk.{config, note}

-- Three notes, the last two in the queue.
abbrev shown : Controller
shown = record (new_controller (config "FIFO")) {
  history = note "a" ∷ note "b" ∷ note "c" ∷ [];
  queue = note "b" ∷ note "c" ∷ [];
}

build_history_dtos-marks_example :
    map {B = String × Bool × Bool} (λ d. (d.id, d.is_queued, d.is_next)) (build_history_dtos shown)
    ≡ map
        (λ item. (item.id, has_id item.id shown.queue, pastes_next shown item.id))
        (reverse shown.history)
build_history_dtos-marks_example = build_history_dtos-marks shown

-- The queue's first item is the next, and the item that is not in the queue is not marked.
shown_marks :
    map {B = String × Bool × Bool} (λ d. (d.id, d.is_queued, d.is_next)) (build_history_dtos shown)
    ≡ ("c", true, false) ∷ ("b", true, true) ∷ ("a", false, false) ∷ []
unfolding build_history_dtos get_history history_item get_queue get_order_strategy new_controller
shown_marks = refl

abbrev four_turns : List Turn
four_turns = worked ∷ worked ∷ worked ∷ worked ∷ []

enough_turns : 4 + notifications four_turns ≤ turns_of_worker four_turns
unfolding notifications turns_of_worker
enough_turns = omega arith

run_turns-calls_example : new_worker.calls < (run_turns four_turns (notify new_worker)).calls
run_turns-calls_example = run_turns-calls four_turns new_worker enough_turns
