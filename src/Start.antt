-- ===== src/Start.antt =====
-- main.go: the worker that merges waiting clipboard notifications. The window procedure sends without
-- blocking into a channel with room for one, and the worker takes from it.
pub mod Notified
use clip_queue.Prelude.{ℕ, suc, Bool, true, false, List, [], ◌∷◌}

-- Where the worker stands: waiting for an event, in the pause, in the loop that drains the channel, or
-- in `OnClipboardUpdate`.
pub data Phase : Type 0 where
  waiting debouncing draining updating : Phase

-- `pending` is whether the channel has an event, and `calls` counts the calls of OnClipboardUpdate.
pub record Worker : Type 0 where
  pub phase : Phase
  pub pending : Bool
  pub calls : ℕ

unfoldable pub new_worker : Worker
new_worker = record { phase = waiting; pending = false; calls = 0 }

-- `select { case clipEvents <- struct{}{}: default: }`
unfoldable pub notify : Worker → Worker
notify w = record w { pending = true }

-- The next step of the worker; it stays where it is while it waits for an event.
unfoldable pub next_step : Phase → Bool → ℕ → Worker
next_step waiting true n = record { phase = debouncing; pending = false; calls = n }
next_step waiting false n = record { phase = waiting; pending = false; calls = n }
next_step debouncing p n = record { phase = draining; pending = p; calls = n }
next_step draining true n = record { phase = draining; pending = false; calls = n }
next_step draining false n = record { phase = updating; pending = false; calls = suc n }
next_step updating p n = record { phase = waiting; pending = p; calls = n }

unfoldable pub work : Worker → Worker
unfolding next_step
work w = next_step w.phase w.pending w.calls

-- The two sides take turns in any order.
pub data Turn : Type 0 where
  notified worked : Turn

unfoldable pub turn : Turn → Worker → Worker
unfolding notify work
turn notified w = notify w
turn worked w = work w

unfoldable pub run_turns : List Turn → Worker → Worker
run_turns [] w = w
run_turns (t ∷ turns) w = run_turns turns (turn t w)
