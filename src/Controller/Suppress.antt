-- ===== src/Controller/Suppress.antt =====
-- The controller does not react to the clipboard changes that it makes itself.
use clip_queue.Prelude.{ℕ, pos, ◌≡◌, true, String, [], ap, subst, arith}
use clip_queue.Clipboard.Content.{Content}
use clip_queue.Controller.State.{ok, err, skipped, Controller, Platform, Sys, ◌>>=◌}
use clip_queue.Controller.Queue.{add_self_event_locked, is_self_event}
use clip_queue.Controller.Watch.{on_clipboard_update}
use clip_queue.Controller.Paste.{copy_item, mark_copied, restore, paste_next, paste_item}
use clip_queue.Controller.Invariant.{IsValid, commands-IsValid, valid_rules}
use clip_queue.Controller.Inversion.{Leaves, Leaves-bind}
use clip_queue.Controller.Invariant.Methods.{
  resolve_image_payload-IsValid, take_next-IsValid, add_self_event-IsValid,
}
use clip_queue.Controller.Ring.{record_all, is_self_event-record_all}

module _ {W : Type 0} (os : Platform W) where
  -- An update whose sequence number is in the ring changes neither the controller nor makes a
  -- callback: it ends after the pause and the one question for the number.
  pub own_update_skipped :
      (s : Sys W)
      → is_self_event s.controller (os.sequence_number (os.sleep (pos 50) s.world)).0 ≡ true
      → on_clipboard_update os s
        ≡ (err skipped, record s { world = (os.sequence_number (os.sleep (pos 50) s.world)).1 })
  unfolding on_clipboard_update ◌>>=◌
  own_update_skipped s h = rw h

  -- The update that follows changes nothing and calls nobody.
  abbrev pub Unmoved : Sys W → Type 0
  Unmoved s =
      ((on_clipboard_update os s).1.controller ≡ s.controller)
      × ((on_clipboard_update os s).1.events ≡ s.events)

  skipped-Unmoved :
      (s : Sys W)
      → is_self_event s.controller (os.sequence_number (os.sleep (pos 50) s.world)).0 ≡ true
      → Unmoved s
  skipped-Unmoved s h = (
    ap (λ r. r.1.controller) (own_update_skipped s h),
    ap (λ r. r.1.events) (own_update_skipped s h),
  )

  recorded :
      (c : Controller) (seq : ℕ)
      → IsValid c
      → is_self_event (add_self_event_locked seq c) seq ≡ true
  unfolding record_all
  recorded c seq v = is_self_event-record_all c seq [] v (omega arith)

-- Nobody else writes to the clipboard between the question for its number and the next update.
abbrev pub IsQuiet : {W : Type 0} → Platform W → Type 0
IsQuiet {W} os =
    (w : W)
    → (os.sequence_number (os.sleep (pos 50) (os.sequence_number w).1)).0 ≡ (os.sequence_number w).0

module _ {W : Type 0} (os : Platform W) (quiet : IsQuiet os) where
  mark_copied-Unmoved :
      (id : String) (s : Sys W) → IsValid s.controller → Unmoved os (mark_copied os id s).1
  unfolding mark_copied ◌>>=◌
  mark_copied-Unmoved id s v = skipped-Unmoved os (mark_copied os id s).1 (
      rw (quiet s.world) (
        recorded os (record (s.controller) { current_clipboard_id = id }) _
          (commands-IsValid s.controller _ _ id v)))

  restore-Unmoved :
      (before : Content) (s : Sys W) → IsValid s.controller → Unmoved os (restore os before s).1
  unfolding restore ◌>>=◌
  restore-Unmoved before s v =
      skipped-Unmoved os (restore os before s).1
        (rw (quiet (os.write before s.world).1) (recorded os s.controller _ v))

  mark_copied-Leaves : (id : String) → Leaves IsValid (Unmoved os) (mark_copied os id)
  mark_copied-Leaves id = record {
    at = λ s s' a v h. subst (Unmoved os) (ap (λ r. r.1) h) (mark_copied-Unmoved id s v);
  }

  restore-Leaves : (before : Content) → Leaves IsValid (Unmoved os) (restore os before)
  restore-Leaves before = record {
    at = λ s s' a v h. subst (Unmoved os) (ap (λ r. r.1) h) (restore-Unmoved before s v);
  }

  copy_item-Leaves : (id : String) → Leaves IsValid (Unmoved os) (copy_item os id)
  unfolding copy_item
  copy_item-Leaves id =
      search (valid_rules, Leaves-bind, mark_copied-Leaves, resolve_image_payload-IsValid) depth 20

  paste_item-Leaves : (item : Content) → Leaves IsValid (Unmoved os) (paste_item os item)
  unfolding paste_item
  paste_item-Leaves item =
      search
        (
          valid_rules, Leaves-bind, restore-Leaves, resolve_image_payload-IsValid,
          add_self_event-IsValid,
        )
        depth 20

  paste_next-Leaves : Leaves IsValid (Unmoved os) (paste_next os)
  unfolding paste_next
  paste_next-Leaves = search (Leaves-bind, paste_item-Leaves, take_next-IsValid)

  -- If nobody else writes to the clipboard, the update that follows a successful copy out of the
  -- history changes nothing in a valid controller and makes no callback.
  pub copy_item-Unmoved :
      (id : String) (s s' : Sys W)
      → IsValid s.controller
      → copy_item os id s ≡ (ok tt, s')
      → Unmoved os s'
  copy_item-Unmoved id s s' v h = (copy_item-Leaves id).at s s' tt v h

  -- If nobody else writes to the clipboard, the update that follows a successful paste of a queue
  -- item changes nothing in a valid controller and makes no callback.
  pub paste_next-Unmoved :
      (s s' : Sys W) → IsValid s.controller → paste_next os s ≡ (ok tt, s') → Unmoved os s'
  paste_next-Unmoved s s' v h = paste_next-Leaves.at s s' tt v h
