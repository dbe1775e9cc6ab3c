-- ===== src/Controller/Delivery.antt =====
-- What `PasteNext` delivers to the other program, and in which order the queue empties.
use clip_queue.Prelude.{
  ℕ, zero, suc, ℤ, pos, ◌≡◌, refl, Bool, true, not, ◌||◌, String, List, [], ◌∷◌, ◌++◌, some, map,
  ◌==◌, length, length-reverse, sym, All, All-reverse, last?-snoc, init-snoc, reverse, reverse-cons,
  reverse-reverse, append_assoc, map-append, arith, ◌∙◌,
}
use clip_queue.Clipboard.Content.{Content, image, same_type}
use clip_queue.Controller.State.{ok, Platform, Sys, ◌>>=◌}
use clip_queue.Controller.Queue.{add_self_event}
use clip_queue.Controller.Paste.{
  dequeue, resolve_image_payload, take_next, restore, paste_item, paste_next,
}

-- A platform on which nothing fails and nobody else writes to the clipboard. `shows` is what a
-- program sees of an item, `clip` what the clipboard shows, and `pasted` what the other program has
-- taken at each Ctrl+V, the newest first.
pub record Working {W V : Type 0} (os : Platform W) (shows : Content → V) (clip : W → V)
    (pasted : W → List V) : Type 0 where
  pub reads : (w : W) → (c : Content) × ((os.read w).0 ≡ ok c) × (shows c ≡ clip w)
  pub read_keeps : (w : W) → (clip (os.read w).1 ≡ clip w) × (pasted (os.read w).1 ≡ pasted w)
  pub writes : (c : Content) (w : W) → (os.write c w).0 ≡ ok tt
  pub write_shows :
      (c : Content) (w : W)
      → (clip (os.write c w).1 ≡ shows c) × (pasted (os.write c w).1 ≡ pasted w)
  pub sends : (w : W) → (os.send_ctrl_v w).0 ≡ ok tt
  pub send_pastes :
      (w : W)
      → (clip (os.send_ctrl_v w).1 ≡ clip w) × (pasted (os.send_ctrl_v w).1 ≡ clip w ∷ pasted w)
  pub number_keeps :
      (w : W)
      → (clip (os.sequence_number w).1 ≡ clip w) × (pasted (os.sequence_number w).1 ≡ pasted w)
  pub sleep_keeps :
      (ms : ℤ) (w : W) → (clip (os.sleep ms w) ≡ clip w) × (pasted (os.sleep ms w) ≡ pasted w)

-- The item needs no image from the clipboard.
abbrev pub is_ready : Content → Bool
is_ready item = not (same_type item.kind image) || not (length item.image_png == 0)

module _ {W V : Type 0} {shows : Content → V} {clip : W → V} {pasted : W → List V} (os : Platform W)
    (works : Working os shows clip pasted) where
  resolve_ready :
      (item : Content) (s : Sys W)
      → is_ready item ≡ true
      → resolve_image_payload os item s ≡ (ok item, s)
  unfolding resolve_image_payload ◌>>=◌
  resolve_ready item s h = rw h

  paste_item_lem :
      (item : Content) (s : Sys W)
      → is_ready item ≡ true
      → let r = paste_item os item s in
        (r.0 ≡ ok tt)
        × (r.1.controller.queue ≡ s.controller.queue)
        × (r.1.controller.queue_enabled ≡ s.controller.queue_enabled)
        × (r.1.controller.order_strategy ≡ s.controller.order_strategy)
        × (clip r.1.world ≡ clip s.world)
        × (pasted r.1.world ≡ shows item ∷ pasted s.world)
  unfolding paste_item add_self_event restore ◌>>=◌
  paste_item_lem item s h =
      let (before, read_ok, sees) = works.reads s.world in
      let w1 = (os.read s.world).1 in
      let w2 = (os.write item w1).1 in
      let w3 = (os.sequence_number w2).1 in
      let w4 = os.sleep (pos 10) w3 in
      let w5 = (os.send_ctrl_v w4).1 in
      let w6 = os.sleep s.controller.cfg.clipboard.restore_delay_ms w5 in
      let w7 = (os.write before w6).1 in
      rw (read_ok, resolve_ready item _ h, works.writes item w1, works.sends w4)
        (
          refl,
          refl,
          refl,
          refl,
          (works.number_keeps w7).0 ∙ (works.write_shows before w6).0 ∙ sees,
          cc (
            (works.number_keeps w7).1,
            (works.write_shows before w6).1,
            (works.sleep_keeps s.controller.cfg.clipboard.restore_delay_ms w5).1,
            (works.send_pastes w4).1,
            (works.sleep_keeps (pos 10) w3).0,
            (works.sleep_keeps (pos 10) w3).1,
            (works.number_keeps w2).0,
            (works.number_keeps w2).1,
            (works.write_shows item w1).0,
            (works.write_shows item w1).1,
            (works.read_keeps s.world).1,
          ),
        )

dequeue_nonempty :
    (order : String) (queue : List Content) (item : Content) (rest : List Content)
    → dequeue order queue ≡ some (item, rest)
    → not (length queue == 0) ≡ true
unfolding dequeue
dequeue_nonempty order [] item rest h = ground arith
dequeue_nonempty order (x ∷ queue) item rest h = ground arith

module _ {W V : Type 0} {shows : Content → V} {clip : W → V} {pasted : W → List V} (os : Platform W)
    (works : Working os shows clip pasted) where
  -- On a platform where nothing fails, with the queue on, an item next by the order that is no image
  -- still to be read: a paste succeeds, takes this item out of the queue and leaves the queue on and
  -- its order as it was; the other program has taken exactly this item, and the clipboard shows what
  -- it showed before.
  pub paste_next_lem :
      (s : Sys W) (item : Content) (rest : List Content)
      → s.controller.queue_enabled ≡ true
      → dequeue s.controller.order_strategy s.controller.queue ≡ some (item, rest)
      → is_ready item ≡ true
      → let r = paste_next os s in
        (r.0 ≡ ok tt)
        × (r.1.controller.queue ≡ rest)
        × (r.1.controller.queue_enabled ≡ true)
        × (r.1.controller.order_strategy ≡ s.controller.order_strategy)
        × (clip r.1.world ≡ clip s.world)
        × (pasted r.1.world ≡ shows item ∷ pasted s.world)
  unfolding paste_next take_next ◌>>=◌
  paste_next_lem s item rest enabled next ready =
      rw
        (
          enabled,
          dequeue_nonempty s.controller.order_strategy s.controller.queue item rest next,
          next,
        )
        (paste_item_lem os works item _ ready)

-- `n` presses of the paste hotkey.
abbrev pub pastes : {W : Type 0} → Platform W → ℕ → Sys W → Sys W
pastes os zero s = s
pastes os (suc n) s = pastes os n (paste_next os s).1

abbrev pub AllReady : List Content → Type 0
AllReady = All (λ item. is_ready item ≡ true)

dequeue_fifo :
    (order : String) (item : Content) (rest : List Content)
    → order ≡ "FIFO"
    → dequeue order (item ∷ rest) ≡ some (item, rest)
unfolding dequeue
dequeue_fifo order item rest h = rw h

dequeue_snoc :
    (order : String) (item : Content) (rest : List Content)
    → order ≡ "LIFO"
    → dequeue order (rest ++ item ∷ []) ≡ some (item, rest)
unfolding dequeue
dequeue_snoc order item rest h = rw (h, last?-snoc rest item, init-snoc rest item)

dequeue_lifo :
    (order : String) (item : Content) (queue rest : List Content)
    → order ≡ "LIFO"
    → queue ≡ rest ++ item ∷ []
    → dequeue order queue ≡ some (item, rest)
dequeue_lifo order item queue rest h e = rw e (dequeue_snoc order item rest h)

module _ {W V : Type 0} {shows : Content → V} {clip : W → V} {pasted : W → List V} (os : Platform W)
    (works : Working os shows clip pasted) where
  fifo_from :
      (items : List Content) (s : Sys W)
      → s.controller.queue_enabled ≡ true
      → s.controller.order_strategy ≡ "FIFO"
      → s.controller.queue ≡ items
      → AllReady items
      → let s' = pastes os (length items) s in
        (s'.controller.queue ≡ [])
        × (pasted s'.world ≡ reverse (map shows items) ++ pasted s.world)
        × (clip s'.world ≡ clip s.world)
  fifo_from [] s enabled fifo q ready = (q, refl, refl)
  fifo_from (item ∷ items) s enabled fifo q (ready, all_ready) =
      let next : dequeue s.controller.order_strategy s.controller.queue ≡ some (item, items) =
        rw q (dequeue_fifo s.controller.order_strategy item items fifo) in
      let (_, q', enabled', order', clip', pasted') =
        paste_next_lem os works s item items enabled next ready in
      let (done, taken, shown) =
        fifo_from items (paste_next os s).1 enabled' (order' ∙ fifo) q' all_ready in
      (done, rw (taken, pasted', reverse-cons, append_assoc) refl, shown ∙ clip')

  lifo_from :
      (items : List Content) (s : Sys W)
      → s.controller.queue_enabled ≡ true
      → s.controller.order_strategy ≡ "LIFO"
      → s.controller.queue ≡ reverse items
      → AllReady items
      → let s' = pastes os (length items) s in
        (s'.controller.queue ≡ [])
        × (pasted s'.world ≡ map shows (reverse items) ++ pasted s.world)
        × (clip s'.world ≡ clip s.world)
  lifo_from [] s enabled lifo q ready = (q, refl, refl)
  lifo_from (item ∷ items) s enabled lifo q (ready, all_ready) =
      let next =
        dequeue_lifo s.controller.order_strategy item s.controller.queue (reverse items) lifo
          (q ∙ reverse-cons item items) in
      let (_, q', enabled', order', clip', pasted') =
        paste_next_lem os works s item (reverse items) enabled next ready in
      let (done, taken, shown) =
        lifo_from items (paste_next os s).1 enabled' (order' ∙ lifo) q' all_ready in
      (done, rw (taken, pasted', reverse-cons, map-append, append_assoc) refl, shown ∙ clip')

  -- On a platform where nothing fails, with the queue on, in FIFO order and holding no image that
  -- is still to be read: as many pastes as the queue is long empty the queue, the other program has
  -- taken its items from the first to the last, and the clipboard shows what it showed before.
  pub fifo_delivery :
      (s : Sys W)
      → s.controller.queue_enabled ≡ true
      → s.controller.order_strategy ≡ "FIFO"
      → AllReady s.controller.queue
      → let s' = pastes os (length s.controller.queue) s in
        (s'.controller.queue ≡ [])
        × (pasted s'.world ≡ reverse (map shows s.controller.queue) ++ pasted s.world)
        × (clip s'.world ≡ clip s.world)
  fifo_delivery s enabled fifo ready = fifo_from s.controller.queue s enabled fifo refl ready

  -- On a platform where nothing fails, with the queue on, in LIFO order and holding no image that
  -- is still to be read: as many pastes as the queue is long empty the queue, the other program has
  -- taken its items from the last to the first, and the clipboard shows what it showed before.
  pub lifo_delivery :
      (s : Sys W)
      → s.controller.queue_enabled ≡ true
      → s.controller.order_strategy ≡ "LIFO"
      → AllReady s.controller.queue
      → let s' = pastes os (length s.controller.queue) s in
        (s'.controller.queue ≡ [])
        × (pasted s'.world ≡ map shows s.controller.queue ++ pasted s.world)
        × (clip s'.world ≡ clip s.world)
  lifo_delivery s enabled lifo ready =
      let q = s.controller.queue in
      let drained =
        lifo_from (reverse q) s enabled lifo (sym (reverse-reverse q)) (All-reverse _ q ready) in
      rw (length-reverse q, reverse-reverse q) at drained
