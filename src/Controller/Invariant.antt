-- ===== src/Controller/Invariant.antt =====
-- The invariant of the controller, and the changes of the record that keep it.
pub mod Methods
use clip_queue.Prelude.{
  ℕ, ◌+◌, ◌%◌, ◌≤◌, ◌<◌, ◌≡◌, refl, ◌⊎◌, inl, inr, ℤ, pos, negsuc, Bool, true, false, not, ◌&&◌,
  String, List, [], ◌∷◌, ◌++◌, Option, none, some, if◌then◌else◌, leb, Bool-cases, Option-cases,
  length-map, map, str_eq, eq_iff, length, set, take, drop, length-append, length-set, length-drop,
  arith,
}
use clip_queue.Config.Types.{Config, Macro}
use clip_queue.Clipboard.Content.{Content}
use clip_queue.Controller.State.{
  Controller, Platform, Sys, Action, history_limit, ring_buffer_size, new_controller,
}
use clip_queue.Controller.Queue
use clip_queue.Controller.Watch
use clip_queue.Controller.Paste
use clip_queue.Controller.Macros
use clip_queue.Controller.Keeps.{Keeps, keeps_rules}

pub record IsValid (c : Controller) : Type 0 where
  pub history_fits : length c.history ≤ history_limit
  pub ring_full : length c.self_events_ring ≡ c.ring_size
  pub ring_fixed : c.ring_size ≡ ring_buffer_size
  pub ring_room : c.ring_index < c.ring_size
  pub order_known : (c.order_strategy ≡ "LIFO") ⊎ (c.order_strategy ≡ "FIFO")

pub new_controller-IsValid : (cfg : Config) → IsValid (new_controller cfg)
unfolding new_controller
new_controller-IsValid cfg = record {
  history_fits = omega arith;
  ring_full = refl;
  ring_fixed = refl;
  ring_room = omega arith;
  order_known =
      ground (arith, eq_iff cfg.queue.default_order "LIFO", eq_iff cfg.queue.default_order "FIFO");
}

pub add_self_event_locked-IsValid :
    (seq : ℕ) (c : Controller) → IsValid c → IsValid (Queue.add_self_event_locked seq c)
unfolding Queue.add_self_event_locked
add_self_event_locked-IsValid seq c v = record {
  history_fits = v.history_fits;
  ring_full = omega (arith, v.ring_full, length-set c.self_events_ring c.ring_index seq);
  ring_fixed = v.ring_fixed;
  ring_room = omega (arith, v.ring_room);
  order_known = v.order_known;
}

pub toggled-IsValid :
    (c : Controller)
    → IsValid c
    → IsValid
        (record c { order_strategy = if str_eq c.order_strategy "LIFO" then "FIFO" else "LIFO" })
toggled-IsValid c v = ground arith

-- The switch, the queue and the current ID are free.
pub commands-IsValid :
    (c : Controller) (b : Bool) (q : List Content) (id : String)
    → IsValid c
    → IsValid (record c { queue_enabled = b; queue = q; current_clipboard_id = id })
commands-IsValid c b q id v = record {
  history_fits = v.history_fits;
  ring_full = v.ring_full;
  ring_fixed = v.ring_fixed;
  ring_room = v.ring_room;
  order_known = v.order_known;
}

pub set_order-IsValid :
    (c : Controller) (order : String)
    → (not (str_eq order "LIFO") && not (str_eq order "FIFO")) ≡ false
    → IsValid c
    → IsValid (record c { order_strategy = order })
set_order-IsValid c order h v = ground (arith, eq_iff order "LIFO", eq_iff order "FIFO")

pub length-push_history :
    (content : Content) (h : List Content)
    → length h ≤ history_limit
    → length (Watch.push_history content h) ≤ history_limit
unfolding Watch.push_history
length-push_history content h fits = elim (Bool-cases (leb history_limit (length h))) [
  | inl full ↦ rw full (omega (arith, length-append (drop 1 h) (content ∷ []), length-drop 1 h))
  | inr room ↦ rw room (ground (arith, length-append h (content ∷ [])))
]

pub pushed-IsValid :
    (c : Controller) (content : Content)
    → IsValid c
    → IsValid (record c {
      history = Watch.push_history content c.history;
      current_clipboard_id = content.id;
    })
pushed-IsValid c content v = record {
  history_fits = length-push_history content c.history v.history_fits;
  ring_full = v.ring_full;
  ring_fixed = v.ring_fixed;
  ring_room = v.ring_room;
  order_known = v.order_known;
}

pub filled-IsValid :
    (c : Controller) (id : String) (resolved : Content)
    → IsValid c
    → IsValid (record c {
      history = map (Paste.fill_image id resolved) c.history;
      queue = map (Paste.fill_image id resolved) c.queue;
    })
filled-IsValid c id resolved v = record {
  history_fits = omega (arith, v.history_fits, length-map (Paste.fill_image id resolved) c.history);
  ring_full = v.ring_full;
  ring_fixed = v.ring_fixed;
  ring_room = v.ring_room;
  order_known = v.order_known;
}

pub ruleset valid_rules = (
  keeps_rules, toggled-IsValid, commands-IsValid, set_order-IsValid, pushed-IsValid, filled-IsValid,
  add_self_event_locked-IsValid,
)
