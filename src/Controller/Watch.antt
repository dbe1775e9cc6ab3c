-- ===== src/Controller/Watch.antt =====
-- internal/app/controller.go: `OnClipboardUpdate`, what the controller does when the clipboard has
-- changed.
use clip_queue.Prelude.{
  ℕ, ◌+◌, pos, Bool, not, ◌&&◌, String, List, [], ◌∷◌, ◌++◌, Option, none, some, if◌then◌else◌, ltb,
  leb, ◌==◌, str_eq, length, drop, last?,
}
use clip_queue.Clipboard.Content.{empty, text, image, Content, same_type}
use clip_queue.Controller.State.{
  skipped, ui_refresh, Platform, Action, pure, guard, ◌>>=◌, ◌>>◌, gets, modify, emit, ask, call,
  pause, history_limit,
}
use clip_queue.Controller.Queue.{is_self_event, notify}

-- `time.Second` in nanoseconds.
abbrev pub second : ℕ
second = 1_000_000_000

-- `clipboardContentMatches`: the branch is the type of the current item.
unfoldable pub clipboard_content_matches : Content → Content → Bool
clipboard_content_matches current previous = elim current.kind [
  | text ↦ str_eq current.text previous.text
  | image ↦
      if not (current.source_seq == 0) && not (previous.source_seq == 0)
      then current.source_seq == previous.source_seq
      else current.size_bytes == previous.size_bytes
  | _ ↦ current.size_bytes == previous.size_bytes
]

-- The ID of the newest history item, if the content repeats it within a second.
-- `content.Timestamp.Sub(last.Timestamp) < time.Second`, also for a time before the last.
unfoldable pub duplicate_of : Content → List Content → Option String
unfolding clipboard_content_matches
duplicate_of content history = elim (last? history) [
  | none ↦ none
  | some last ↦
      if same_type content.kind last.kind
        && ltb content.timestamp (last.timestamp + second)
        && clipboard_content_matches content last
      then some last.id
      else none
]

-- At most `history_limit` items, the oldest going first.
unfoldable pub push_history : Content → List Content → List Content
push_history content history =
    (if leb history_limit (length history) then drop 1 history else history) ++ content ∷ []

-- `if content.Type == windows.Image { content.SourceSeq = seq }`
unfoldable pub stamp : ℕ → Content → Content
stamp seq content =
    if same_type content.kind image then record content { source_seq = seq } else content

module _ {W : Type 0} where
  -- The additions to the history and to the queue.
  unfoldable pub store_content : Content → Action W (Unit {0})
  unfolding push_history
  store_content content = do
    c ← gets (λ c. c)
    if c.cfg.features.enable_clipboard
        then modify (λ c. record c {
          history = push_history content c.history;
          current_clipboard_id = content.id;
        })
        else pure tt
    if c.cfg.features.enable_queue && c.queue_enabled
        then (modify (λ c. record c { queue = c.queue ++ content ∷ [] }) >> notify)
        else emit ui_refresh

  -- A repetition only marks the item as the current one.
  unfoldable pub settle : Option String → Content → Action W (Unit {0})
  unfolding store_content
  settle (some last_id) content =
      modify (λ c. record c { current_clipboard_id = last_id }) >> emit ui_refresh
  settle none content = store_content content

  -- The last locked part of `OnClipboardUpdate`.
  unfoldable pub observe : Content → Action W (Unit {0})
  unfolding duplicate_of settle
  observe content = do
    c ← gets (λ c. c)
    if same_type content.kind empty
        then (modify (λ c. record c { current_clipboard_id = "" }) >> emit ui_refresh)
        else settle (duplicate_of content c.history) content

  unfoldable pub on_clipboard_update : Platform W → Action W (Unit {0})
  unfolding is_self_event stamp observe
  on_clipboard_update os = do
    pause (os.sleep (pos 50))
    seq ← ask os.sequence_number
    c ← gets (λ c. c)
    guard (not (is_self_event c seq)) skipped
    content ← call os.read_for_clipboard_watcher
    current_seq ← ask os.sequence_number
    guard (current_seq == seq) skipped
    observe (stamp seq content)
