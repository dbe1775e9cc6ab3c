-- ===== src/Start/Notified.antt =====
-- No clipboard notification is lost: each is followed by a call of OnClipboardUpdate.
use clip_queue.Prelude.{ℕ, suc, ◌+◌, ◌<◌, ◌≤◌, Bool, true, false, List, [], ◌∷◌, arith}
use clip_queue.Start.{
  Phase, waiting, debouncing, draining, updating, Worker, notify, next_step, work, Turn, notified,
  worked, turn, run_turns,
}

unfoldable pub turns_of_worker : List Turn → ℕ
turns_of_worker [] = 0
turns_of_worker (notified ∷ turns) = turns_of_worker turns
turns_of_worker (worked ∷ turns) = suc (turns_of_worker turns)

unfoldable pub notifications : List Turn → ℕ
notifications [] = 0
notifications (notified ∷ turns) = suc (notifications turns)
notifications (worked ∷ turns) = notifications turns

calls-next_step : (phase : Phase) (p : Bool) (n : ℕ) → n ≤ (next_step phase p n).calls
unfolding next_step
calls-next_step waiting true n = omega arith
calls-next_step waiting false n = omega arith
calls-next_step debouncing p n = omega arith
calls-next_step draining true n = omega arith
calls-next_step draining false n = omega arith
calls-next_step updating p n = omega arith

calls-run_turns : (turns : List Turn) (w : Worker) → w.calls ≤ (run_turns turns w).calls
unfolding run_turns turn notify work
calls-run_turns [] w = omega arith
calls-run_turns (notified ∷ turns) w = calls-run_turns turns (notify w)
calls-run_turns (worked ∷ turns) w =
    omega (arith, calls-run_turns turns (work w), calls-next_step w.phase w.pending w.calls)

-- A call is still to come.
abbrev Owes : Phase → Bool → Type 0
Owes waiting true = Unit
Owes waiting false = ⊥
Owes debouncing p = Unit
Owes draining p = Unit
Owes updating true = Unit
Owes updating false = ⊥

-- The turns of the worker until that call.
abbrev rank : Phase → Bool → ℕ
rank waiting p = 3
rank debouncing true = 3
rank debouncing false = 2
rank draining true = 2
rank draining false = 1
rank updating p = 4

call_comes :
    (turns : List Turn) (phase : Phase) (p : Bool) (n : ℕ)
    → Owes phase p
    → rank phase p + notifications turns ≤ turns_of_worker turns
    → n < (run_turns turns (record { phase = phase; pending = p; calls = n })).calls
unfolding run_turns turn notify work next_step notifications turns_of_worker
call_comes [] waiting p n owes enough = absurd (omega arith)
call_comes [] debouncing true n owes enough = absurd (omega arith)
call_comes [] debouncing false n owes enough = absurd (omega arith)
call_comes [] draining true n owes enough = absurd (omega arith)
call_comes [] draining false n owes enough = absurd (omega arith)
call_comes [] updating p n owes enough = absurd (omega arith)
call_comes (notified ∷ turns) waiting p n owes enough =
    call_comes turns waiting true n tt (omega arith)
call_comes (notified ∷ turns) debouncing true n owes enough =
    call_comes turns debouncing true n tt (omega arith)
call_comes (notified ∷ turns) debouncing false n owes enough =
    call_comes turns debouncing true n tt (omega arith)
call_comes (notified ∷ turns) draining true n owes enough =
    call_comes turns draining true n tt (omega arith)
call_comes (notified ∷ turns) draining false n owes enough =
    call_comes turns draining true n tt (omega arith)
call_comes (notified ∷ turns) updating p n owes enough =
    call_comes turns updating true n tt (omega arith)
call_comes (worked ∷ turns) waiting true n owes enough =
    call_comes turns debouncing false n tt (omega arith)
call_comes (worked ∷ turns) waiting false n owes enough = absurd owes
call_comes (worked ∷ turns) debouncing true n owes enough =
    call_comes turns draining true n tt (omega arith)
call_comes (worked ∷ turns) debouncing false n owes enough =
    call_comes turns draining false n tt (omega arith)
call_comes (worked ∷ turns) draining true n owes enough =
    call_comes turns draining false n tt (omega arith)
call_comes (worked ∷ turns) draining false n owes enough =
    omega
      (arith, calls-run_turns turns (record { phase = updating; pending = false; calls = suc n }))
call_comes (worked ∷ turns) updating true n owes enough =
    call_comes turns waiting true n tt (omega arith)
call_comes (worked ∷ turns) updating false n owes enough = absurd owes

notified-Owes : (phase : Phase) → Owes phase true
notified-Owes waiting = tt
notified-Owes debouncing = tt
notified-Owes draining = tt
notified-Owes updating = tt

rank-bounded : (phase : Phase) → rank phase true ≤ 4
rank-bounded waiting = omega arith
rank-bounded debouncing = omega arith
rank-bounded draining = omega arith
rank-bounded updating = omega arith

-- Whatever the worker was doing when the clipboard notifies, and however the turns then alternate:
-- after four turns of the worker, and one more for each further notification, OnClipboardUpdate has
-- been called again.
pub run_turns-calls :
    (turns : List Turn) (w : Worker)
    → 4 + notifications turns ≤ turns_of_worker turns
    → w.calls < (run_turns turns (notify w)).calls
unfolding notify
run_turns-calls turns w enough =
    call_comes turns w.phase true w.calls (notified-Owes w.phase)
      (omega (arith, rank-bounded w.phase))
