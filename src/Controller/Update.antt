-- ===== src/Controller/Update.antt =====
-- What a clipboard update may do to the controller.
use clip_queue.Prelude.{
  true≢false, ℕ, pos, ◌==◌, ◌≡◌, ◌≢◌, refl, ◌∙◌, sym, ◌⊎◌, inl, inr, true, false, ◌&&◌,
  if◌then◌else◌, String, [], ◌∷◌, ◌++◌, last?, none, some, Bool-cases, Option-cases, ap, subst,
}
use clip_queue.Clipboard.Content.{Content, ContentType, empty, text, files, image, same_type}
use clip_queue.Controller.State.{ok, Controller, Platform, Sys, ◌>>=◌}
use clip_queue.Controller.Queue.{is_self_event}
use clip_queue.Controller.Watch.{
  duplicate_of, stamp, store_content, settle, observe, on_clipboard_update,
}
use clip_queue.Controller.Repeat.{
  Pushed, push_history-Pushed, same_type_iff, Repeats, IsRepeat, duplicate_of-some,
  duplicate_of-none,
}

-- The new content in the history, and in the queue while the queue is on.
abbrev pub Stored : Content → Controller → Controller → Type 0
Stored content c c' =
    (((c.cfg.features.enable_clipboard ≡ false)
        × (c'.history ≡ c.history)
        × (c'.current_clipboard_id ≡ c.current_clipboard_id))
      ⊎ ((c.cfg.features.enable_clipboard ≡ true)
          × Pushed content c.history c'.history
          × (c'.current_clipboard_id ≡ content.id)))
    × (((c.cfg.features.enable_queue && c.queue_enabled ≡ false) × (c'.queue ≡ c.queue))
        ⊎ ((c.cfg.features.enable_queue && c.queue_enabled ≡ true)
            × (c'.queue ≡ c.queue ++ content ∷ [])))

module _ {W : Type 0} where
  store_content-Stored :
      (content : Content) (s : Sys W)
      → Stored content s.controller (store_content content s).1.controller
  unfolding store_content ◌>>=◌
  store_content-Stored content s =
      let pushed = push_history-Pushed content s.controller.history in
      elim (Bool-cases s.controller.cfg.features.enable_clipboard) [
        | inl kept ↦
            elim (Bool-cases
              (s.controller.cfg.features.enable_queue && s.controller.queue_enabled)) [
                | inl queued ↦ rw (kept, queued) (inr (refl, pushed, refl), inr (refl, refl))
                | inr unqueued ↦ rw (kept, unqueued) (inr (refl, pushed, refl), inl (refl, refl))
              ]
        | inr dropped ↦
            elim (Bool-cases
              (s.controller.cfg.features.enable_queue && s.controller.queue_enabled)) [
                | inl queued ↦ rw (dropped, queued) (inl (refl, refl, refl), inr (refl, refl))
                | inr unqueued ↦ rw (dropped, unqueued) (inl (refl, refl, refl), inl (refl, refl))
              ]
      ]

-- What becomes of a content that was read: an empty one only clears the current ID, one that repeats
-- the newest history item only makes this item the current one, and any other is stored.
abbrev pub Observed : Content → Controller → Controller → Type 0
Observed content c c' =
    ((content.kind ≡ empty) × (c' ≡ record c { current_clipboard_id = "" }))
    ⊎ ((content.kind ≢ empty)
        × (((item : Content) × (last? c.history ≡ some item)
              × Repeats content item
              × (c' ≡ record c { current_clipboard_id = item.id }))
            ⊎ ((¬ IsRepeat content c.history) × Stored content c c')))

module _ {W : Type 0} where
  settle-some :
      (id : String) (content : Content) (s : Sys W)
      → (settle (some id) content s).1.controller
        ≡ record (s.controller) { current_clipboard_id = id }
  unfolding settle ◌>>=◌
  settle-some id content s = refl

  settle-none :
      (content : Content) (s : Sys W)
      → Stored content s.controller (settle none content s).1.controller
  unfolding settle
  settle-none content s = store_content-Stored content s

  observe-Observed :
      (content : Content) (s : Sys W)
      → Observed content s.controller (observe content s).1.controller
  unfolding observe ◌>>=◌
  observe-Observed content s = elim (Bool-cases (same_type content.kind empty)) [
    | inl nothing ↦ rw nothing (inl ((same_type_iff content.kind empty).0 nothing, refl))
    | inr something ↦
        let kept : content.kind ≢ empty =
          λ e. true≢false (sym ((same_type_iff content.kind empty).1 e) ∙ something) in
        elim (Option-cases (duplicate_of content s.controller.history)) [
          | inl new ↦
              let fresh = duplicate_of-none content s.controller.history new in
              rw (observe, something, new) (inr (kept, inr (fresh, settle-none content s)))
          | inr (id, old) ↦
              let (item, newest, repeats, same) =
                duplicate_of-some content s.controller.history id old in
              let current =
                ap (λ x. record (s.controller) { current_clipboard_id = x }) (sym same) in
              rw (observe, something, old) (inr (kept, inl (item, newest, repeats, current)))
        ]
  ]

-- The content with the number of the clipboard, if it is an image.
abbrev pub numbered : ℕ → Content → Content
numbered seq content = record content {
  source_seq = elim content.kind [ image ↦ seq | _ ↦ content.source_seq ];
}

numbered-stamp : (seq : ℕ) (content : Content) → stamp seq content ≡ numbered seq content
unfolding stamp
numbered-stamp seq content = by_kind content.kind
  where
    by_kind :
        (k : ContentType)
        → (if same_type k image then record content { source_seq = seq } else content)
          ≡ record content { source_seq = elim k [ image ↦ seq | _ ↦ content.source_seq ] }
    by_kind empty = refl
    by_kind text = refl
    by_kind files = refl
    by_kind image = refl

observe-numbered :
    {W : Type 0} (seq : ℕ) (content : Content) (s : Sys W)
    → Observed (numbered seq content) s.controller (observe (stamp seq content) s).1.controller
observe-numbered seq content s =
    subst (λ c. Observed c s.controller (observe (stamp seq content) s).1.controller)
      (numbered-stamp seq content) (observe-Observed (stamp seq content) s)

module _ {W : Type 0} (os : Platform W) where
  -- An update that is foreign, whose content is read, and behind which the sequence number is still
  -- the same: an empty content clears the current ID, and a content of the type and payload of the
  -- newest history item that is less than a second younger makes this item the current one, and
  -- nothing else changes. Any other content, with the sequence number in it if it is an image, is the
  -- newest history item, for which the oldest goes if there were fifty, and the current one, if the
  -- clipboard feature is on, and the last item of the queue, if the queue and its feature are on.
  pub on_clipboard_update-Observed :
      (s : Sys W) (content : Content) (w : W)
      → is_self_event s.controller (os.sequence_number (os.sleep (pos 50) s.world)).0 ≡ false
      → os.read_for_clipboard_watcher (os.sequence_number (os.sleep (pos 50) s.world)).1
        ≡ (ok content, w)
      → (os.sequence_number w).0 == (os.sequence_number (os.sleep (pos 50) s.world)).0 ≡ true
      → Observed
          (numbered (os.sequence_number (os.sleep (pos 50) s.world)).0 content)
          s.controller
          (on_clipboard_update os s).1.controller
  unfolding on_clipboard_update ◌>>=◌
  on_clipboard_update-Observed s content w foreign read same =
      rw (foreign, read, same)
        (observe-numbered (os.sequence_number (os.sleep (pos 50) s.world)).0 content
          (record s { world = (os.sequence_number w).1 }))
