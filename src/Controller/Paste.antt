-- ===== src/Controller/Paste.antt =====
-- internal/app/controller.go: `PasteNext`, `CopyItem`, and the images that are read on demand.
use clip_queue.Prelude.{
  pos, Bool, true, false, not, ◌&&◌, ◌||◌, String, List, [], ◌∷◌, Option, none, some, map,
  if◌then◌else◌, ◌==◌, str_eq, length, last?, init,
}
use clip_queue.Clipboard.Content.{Content, image, same_type}
use clip_queue.Controller.State.{
  image_not_saved, image_gone, image_unreadable, image_changed, no_image_data, not_in_history,
  skipped, ui_refresh, Platform, Action, pure, or_fail, guard, map_err, ignore, on_error, ◌>>=◌,
  ◌>>◌, gets, modify, emit, ask, call, pause,
}
use clip_queue.Controller.Queue.{add_self_event_locked, add_self_event, notify}

-- What an item gains from `applyResolvedImagePayload`.
unfoldable pub fill_image : String → Content → Content → Content
fill_image id resolved item =
    if str_eq item.id id
    then record item {
      image_png = resolved.image_png;
      size_bytes = resolved.size_bytes;
      preview = resolved.preview;
      source_seq = resolved.source_seq;
    }
    else item

-- Some item of the list has the ID: the loop would set `updated`.
unfoldable pub has_id : String → List Content → Bool
has_id id [] = false
has_id id (item ∷ items) = if str_eq item.id id then true else has_id id items

-- The item that is next by the order, and the queue without it.
unfoldable pub dequeue : String → List Content → Option (Content × List Content)
dequeue order queue =
    if str_eq order "LIFO"
    then elim (last? queue) [ none ↦ none | some item ↦ some (item, init queue) ]
    else elim queue [ [] ↦ none | item ∷ rest ↦ some (item, rest) ]

-- The first history item with the ID.
unfoldable pub find_item : String → List Content → Option Content
find_item id [] = none
find_item id (item ∷ items) = if str_eq item.id id then some item else find_item id items

module _ {W : Type 0} where
  unfoldable pub apply_resolved_image_payload : String → Content → Action W (Unit {0})
  unfolding fill_image has_id
  apply_resolved_image_payload id resolved = do
    c ← gets (λ c. c)
    modify (λ c. record c {
      history = map (fill_image id resolved) c.history;
      queue = map (fill_image id resolved) c.queue;
    })
    if has_id id c.history || has_id id c.queue then emit ui_refresh else pure tt

  -- The part of `resolveImagePayload` behind its first test.
  unfoldable pub read_image_payload : Platform W → Content → Action W Content
  unfolding apply_resolved_image_payload
  read_image_payload os item = do
    guard (not (item.source_seq == 0)) image_not_saved
    current_seq ← ask os.sequence_number
    guard (current_seq == item.source_seq) (image_gone item.source_seq current_seq)
    resolved ← map_err image_unreadable (call os.read)
    after ← ask os.sequence_number
    guard (after == item.source_seq) image_changed
    guard (same_type resolved.kind image && not (length resolved.image_png == 0)) no_image_data
    apply_resolved_image_payload item.id (record resolved { source_seq = item.source_seq })
    pure (record item {
      image_png = resolved.image_png;
      size_bytes = resolved.size_bytes;
      preview = resolved.preview;
    })

  unfoldable pub resolve_image_payload : Platform W → Content → Action W Content
  unfolding read_image_payload
  resolve_image_payload os item =
      if not (same_type item.kind image) || not (length item.image_png == 0)
      then pure item
      else read_image_payload os item

  -- `PasteNext` up to the callbacks: what happens under the lock.
  unfoldable pub take_next : Action W Content
  unfolding dequeue
  take_next = do
    c ← gets (λ c. c)
    guard c.queue_enabled skipped
    guard (not (length c.queue == 0)) skipped
    next ← or_fail (dequeue c.order_strategy c.queue) skipped
    modify (λ c. record c { queue = next.1 })
    notify
    pure next.0

  -- Putting the clipboard back as it was, at the end of `PasteNext`.
  unfoldable pub restore : Platform W → Content → Action W (Unit {0})
  unfolding add_self_event
  restore os before = do ignore (call (os.write before)); add_self_event os; emit ui_refresh

  -- The rest of `PasteNext`: put the item on the clipboard, send Ctrl+V, put the clipboard back.
  unfoldable pub paste_item : Platform W → Content → Action W (Unit {0})
  unfolding resolve_image_payload add_self_event restore
  paste_item os next = do
    before ← call os.read
    item ← resolve_image_payload os next
    call (os.write item)
    add_self_event os
    pause (os.sleep (pos 10))
    on_error (call os.send_ctrl_v) (ignore (call (os.write before)) >> add_self_event os)
    c ← gets (λ c. c)
    pause (os.sleep c.cfg.clipboard.restore_delay_ms)
    restore os before

  unfoldable pub paste_next : Platform W → Action W (Unit {0})
  unfolding take_next paste_item
  paste_next os = do item ← take_next; paste_item os item

  -- The last locked part of `CopyItem`, and the callback behind it.
  unfoldable pub mark_copied : Platform W → String → Action W (Unit {0})
  unfolding add_self_event_locked
  mark_copied os id = do
    modify (λ c. record c { current_clipboard_id = id })
    seq ← ask os.sequence_number
    modify (add_self_event_locked seq)
    emit ui_refresh

  unfoldable pub copy_item : Platform W → String → Action W (Unit {0})
  unfolding find_item resolve_image_payload mark_copied
  copy_item os id = do
    c ← gets (λ c. c)
    found ← or_fail (find_item id c.history) (not_in_history id)
    item ← resolve_image_payload os found
    call (os.write item)
    mark_copied os id
