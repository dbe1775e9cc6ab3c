-- ===== src/Controller/Queue.antt =====
-- internal/app/controller.go: the queue's commands, the snapshots for the UI, and the ring of
-- clipboard sequence numbers that the controller has caused itself.
use clip_queue.Prelude.{
  ℕ, ◌+◌, ◌%◌, ℤ, pos, negsuc, Bool, true, false, not, ◌&&◌, String, List, [], ◌∷◌, ◌++◌,
  if◌then◌else◌, leb, ◌==◌, str_eq, length, set, take, drop,
}
use clip_queue.Clipboard.Content.{Content}
use clip_queue.Controller.State.{
  unsupported_order, invalid_index, state_changed, ui_refresh, Controller, Platform, Action, pure,
  fail, ◌>>=◌, ◌>>◌, gets, modify, emit, ask,
}

-- `addSelfEventLocked`.
unfoldable pub add_self_event_locked : ℕ → Controller → Controller
add_self_event_locked seq c = record c {
  self_events_ring = set c.self_events_ring c.ring_index seq;
  ring_index = (c.ring_index + 1) % c.ring_size;
}

-- `for _, s := range c.selfEventsRing`
unfoldable pub contains : List ℕ → ℕ → Bool
contains [] seq = false
contains (s ∷ ring) seq = if s == seq then true else contains ring seq

unfoldable pub is_self_event : Controller → ℕ → Bool
unfolding contains
is_self_event c seq = contains c.self_events_ring seq

module _ {W : Type 0} where
  -- `c.addSelfEvent(windows.GetClipboardSequenceNumber())`
  unfoldable pub add_self_event : Platform W → Action W (Unit {0})
  unfolding add_self_event_locked
  add_self_event os = do seq ← ask os.sequence_number; modify (add_self_event_locked seq)

  -- The two callbacks that end a command, with the state that it leaves.
  abbrev pub notify : Action W (Unit {0})
  notify = do
    c ← gets (λ c. c)
    emit (state_changed c.queue_enabled (length c.queue) c.order_strategy)
    emit ui_refresh

  unfoldable pub clear_queue : Action W (Unit {0})
  clear_queue = do
    c ← gets (λ c. c)
    if length c.queue == 0 then pure tt else modify (λ c. record c { queue = [] })
    emit (state_changed c.queue_enabled 0 c.order_strategy)
    emit ui_refresh

  unfoldable pub toggle_order : Action W (Unit {0})
  toggle_order = do
    modify (λ c. record c {
      order_strategy = if str_eq c.order_strategy "LIFO" then "FIFO" else "LIFO";
    })
    notify

  unfoldable pub toggle_queue : Action W (Unit {0})
  toggle_queue = do
    c ← gets (λ c. c)
    if not c.queue_enabled
        then modify (λ c. record c { queue_enabled = true })
        else modify (λ c. record c { queue_enabled = false })
    notify

  unfoldable pub set_order_strategy : String → Action W (Unit {0})
  set_order_strategy order = do
    c ← gets (λ c. c)
    if not (str_eq order "LIFO") && not (str_eq order "FIFO")
        then fail (unsupported_order order)
        else if str_eq c.order_strategy order
        then pure tt
        else (modify (λ c. record c { order_strategy = order }) >> notify)

  unfoldable pub remove_item : ℤ → Action W (Unit {0})
  remove_item (negsuc n) = do c ← gets (λ c. c); fail (invalid_index (negsuc n) (length c.queue))
  remove_item (pos i) = do
    c ← gets (λ c. c)
    if leb (length c.queue) i
        then fail (invalid_index (pos i) (length c.queue))
        else (modify (λ c. record c { queue = take i c.queue ++ drop (i + 1) c.queue }) >> notify)

-- The getters: the copies that they return are equal to the fields.
unfoldable pub get_queue : Controller → List Content
get_queue c = c.queue

unfoldable pub get_history : Controller → List Content
get_history c = c.history

unfoldable pub get_current_clipboard_id : Controller → String
get_current_clipboard_id c = c.current_clipboard_id

unfoldable pub get_order_strategy : Controller → String
get_order_strategy c = c.order_strategy

unfoldable pub get_queue_state : Controller → Bool × ℕ × String
get_queue_state c = (c.queue_enabled, length c.queue, c.order_strategy)
