-- ===== src/Server.antt =====
-- internal/ui/server: the snapshots of the queue and the history that the UI gets. JSON is the
-- standard library's, so a response is the value that is encoded.
pub mod Native
pub mod Handlers
pub mod Settings
pub mod Next
use clip_queue.Prelude.{
  ℕ, ◌+◌, ℤ, pos, negsuc, Bool, true, false, ◌&&◌, String, List, [], ◌∷◌, Option, none, some, map,
  reverse, if◌then◌else◌, str_eq, last?,
}
use clip_queue.Clipboard.Content.{Content, type_name, needs_image_capture as needs_capture}
use clip_queue.Controller.State.{Controller}
use clip_queue.Controller.Queue.{
  get_history, get_queue, get_order_strategy, get_current_clipboard_id, get_queue_state,
}

-- `HistoryItemDTO`
pub record HistoryItem : Type 0 where
  pub id : String
  pub content_type : String
  pub preview : String
  pub timestamp : ℕ
  pub is_queued : Bool
  pub queue_index : ℤ
  pub is_next : Bool
  pub is_current_clipboard : Bool
  pub needs_image_capture : Bool

pub record QueueState : Type 0 where
  pub enabled : Bool
  pub count : ℕ
  pub order : String

pub record UiSnapshot : Type 0 where
  pub queue : QueueState
  pub history : List HistoryItem

-- `queueMap[id]`, where a later item overwrites an earlier one; the items start at the index `i`.
unfoldable pub queue_map : String → ℕ → List Content → Option ℕ
queue_map id i [] = none
queue_map id i (item ∷ queue) = elim (queue_map id (i + 1) queue) [
  | some j ↦ some j
  | none ↦ if str_eq item.id id then some i else none
]

-- `nextID`
unfoldable pub next_id : String → List Content → String
next_id order [] = ""
next_id order (first ∷ queue) =
    if str_eq order "LIFO"
    then elim (last? (first ∷ queue)) [ none ↦ "" | some item ↦ item.id ]
    else first.id

-- One turn of the loop over the history.
unfoldable pub history_item : Controller → Content → HistoryItem
unfolding queue_map next_id
history_item c item =
    let index = queue_map item.id 0 (get_queue c) in
    let queued : Bool = elim index [ none ↦ false | some i ↦ true ] in
    record {
      id = item.id;
      content_type = type_name item.kind;
      preview = item.preview;
      timestamp = item.timestamp;
      is_queued = queued;
      queue_index = elim index [ none ↦ negsuc 0 | some i ↦ pos i ];
      is_next = queued && str_eq item.id (next_id (get_order_strategy c) (get_queue c));
      is_current_clipboard = str_eq item.id (get_current_clipboard_id c);
      needs_image_capture = needs_capture item;
    }

-- `buildHistoryDTOs`, from the last item of the history to the first.
unfoldable pub build_history_dtos : Controller → List HistoryItem
build_history_dtos c = map (history_item c) (reverse (get_history c))

unfoldable pub queue_state : Controller → QueueState
queue_state c =
    let (enabled, count, order) = get_queue_state c in
    record { enabled = enabled; count = count; order = order }

-- `GetUISnapshot`
unfoldable pub get_ui_snapshot : Controller → UiSnapshot
unfolding queue_state build_history_dtos
get_ui_snapshot c = record { queue = queue_state c; history = build_history_dtos c }
