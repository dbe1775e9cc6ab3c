-- ===== src/Server/Next.antt =====
-- The item that the UI marks as the next is the one that PasteNext takes once the queue is on.
use clip_queue.Prelude.{
  ℕ, ◌+◌, ◌≡◌, refl, ap, sym, ◌∙◌, Bool, true, false, ◌&&◌, String, List, [], ◌∷◌, Option, none,
  some, map, reverse, str_eq, last?, length, ◌==◌, Bool-cases, Option-cases, inl, inr, arith,
  eq_iff,
}
use clip_queue.Clipboard.Content.{Content}
use clip_queue.Controller.State.{Controller, ok, ◌>>=◌}
use clip_queue.Controller.Queue.{get_history, get_queue, get_order_strategy}
use clip_queue.Controller.Paste.{dequeue, has_id, take_next}
use clip_queue.Server.{HistoryItem, queue_map, next_id, history_item, build_history_dtos}

unfoldable is_some : {A : Type 0} → Option A → Bool
is_some o = elim o [ none ↦ false | some a ↦ true ]

str_eq_comm : (s t : String) → str_eq s t ≡ str_eq t s
str_eq_comm s t = elim (Bool-cases (str_eq s t)) [
  | inl e ↦
      let same : s ≡ t = (eq_iff s t).0 e in
      ap (λ x. str_eq x t) same ∙ ap (λ x. str_eq t x) (sym same)
  | inr e ↦ elim (Bool-cases (str_eq t s)) [
    | inr f ↦ e ∙ sym f
    | inl f ↦
        let same : t ≡ s = (eq_iff t s).0 f in
        ap (λ x. str_eq x t) (sym same) ∙ ap (λ x. str_eq t x) same
  ]
]

queue_map-has_id :
    (id : String) (i : ℕ) (queue : List Content) → is_some (queue_map id i queue) ≡ has_id id queue
unfolding queue_map has_id is_some
queue_map-has_id id i [] = refl
queue_map-has_id id i (item ∷ queue) =
    let rest = queue_map-has_id id (i + 1) queue in
    elim (Option-cases (queue_map id (i + 1) queue)) [
      | inr (j, e) ↦
          let found : true ≡ has_id id queue = ap is_some (sym e) ∙ rest in
          rw e (ground (arith, found))
      | inl e ↦
          let missing : false ≡ has_id id queue = ap is_some (sym e) ∙ rest in
          rw e (ground (arith, missing))
    ]

-- Whether the item that the order takes from the queue has this ID.
unfoldable is_taken : String → List Content → String → Bool
is_taken order queue id = elim (dequeue order queue) [
  | none ↦ false
  | some (item, rest) ↦ str_eq id item.id
]

has_id_last :
    (id : String) (queue : List Content) (item : Content)
    → last? queue ≡ some item
    → str_eq id item.id ≡ true
    → has_id id queue ≡ true
unfolding has_id
has_id_last id [] item e same = cc
has_id_last id (x ∷ []) item e same =
    let found : x.id ≡ item.id = cc in
    let this : str_eq x.id id ≡ true =
      ap (λ y. str_eq y id) found ∙ str_eq_comm item.id id ∙ same in
    rw this refl
has_id_last id (x ∷ y ∷ queue) item e same =
    let rest = has_id_last id (y ∷ queue) item e same in ground (arith, rest)

last_some :
    (x : Content) (queue : List Content) → (item : Content) × (last? (x ∷ queue) ≡ some item)
last_some x [] = (x, refl)
last_some x (y ∷ queue) = last_some y queue

is_taken_lifo :
    (order : String) (queue : List Content) (id : String) (item : Content)
    → str_eq order "LIFO" ≡ true
    → last? queue ≡ some item
    → is_taken order queue id ≡ str_eq id item.id
unfolding is_taken dequeue
is_taken_lifo order queue id item e last = rw (is_taken, e, last) refl

next_id_lifo :
    (order : String) (first : Content) (queue : List Content) (item : Content)
    → str_eq order "LIFO" ≡ true
    → last? (first ∷ queue) ≡ some item
    → next_id order (first ∷ queue) ≡ item.id
unfolding next_id
next_id_lifo order first queue item e last = rw (next_id, e, last) refl

is_taken_fifo :
    (order : String) (first : Content) (queue : List Content) (id : String)
    → str_eq order "LIFO" ≡ false
    → (is_taken order (first ∷ queue) id ≡ str_eq id first.id)
      × (next_id order (first ∷ queue) ≡ first.id)
unfolding is_taken dequeue next_id
is_taken_fifo order first queue id e = (rw (is_taken, e) refl, rw (next_id, e) refl)

is_taken_none : (order id : String) → is_taken order [] id ≡ false
unfolding is_taken dequeue
is_taken_none order id = elim (Bool-cases (str_eq order "LIFO")) [
  | inl e ↦ rw (is_taken, e) refl
  | inr e ↦ rw (is_taken, e) refl
]

next_taken :
    (order : String) (queue : List Content) (id : String)
    → (has_id id queue && str_eq id (next_id order queue)) ≡ is_taken order queue id
unfolding has_id
next_taken order [] id = sym (is_taken_none order id)
next_taken order (first ∷ queue) id = elim (Bool-cases (str_eq order "LIFO")) [
  | inr e ↦
      let (taken, next) = is_taken_fifo order first queue id e in
      rw (taken, next) (ground (arith, str_eq_comm first.id id))
  | inl e ↦
      let (item, last) = last_some first queue in
      rw
        (
          is_taken_lifo order (first ∷ queue) id item e last,
          next_id_lifo order first queue item e last,
        )
        (elim (Bool-cases (str_eq id item.id)) [
          | inl same ↦ rw (same, has_id_last id (first ∷ queue) item last same) refl
          | inr other ↦ rw other (ground arith)
        ])
]

-- The ID is that of the item which PasteNext takes out of the queue once the queue is on.
unfoldable pub pastes_next : Controller → String → Bool
unfolding take_next ◌>>=◌
pastes_next c id =
    elim (take_next {W = Unit {0}}
      (record { controller = record c { queue_enabled = true }; world = tt; events = [] })).0 [
        | ok item ↦ str_eq id item.id
        | _ ↦ false
      ]

pastes_from :
    (c : Controller) (queue : List Content) (id : String)
    → pastes_next (record c { queue = queue }) id ≡ is_taken c.order_strategy queue id
unfolding pastes_next is_taken take_next ◌>>=◌
pastes_from c [] id = sym (is_taken_none c.order_strategy id)
pastes_from c (first ∷ queue) id =
    let nonempty : (length (first ∷ queue) == 0) ≡ false = ground arith in
    elim (Option-cases (dequeue c.order_strategy (first ∷ queue))) [
      | inl nothing ↦ rw (pastes_next, is_taken, nonempty, nothing) refl
      | inr (next, found) ↦ rw (pastes_next, is_taken, nonempty, found) refl
    ]

pastes_next-is_taken :
    (c : Controller) (id : String) → pastes_next c id ≡ is_taken c.order_strategy c.queue id
pastes_next-is_taken c id = pastes_from c c.queue id

abbrev mark : HistoryItem → String × Bool × Bool
mark d = (d.id, d.is_queued, d.is_next)

mark-history_item :
    (c : Controller) (item : Content)
    → mark (history_item c item) ≡ (item.id, has_id item.id c.queue, pastes_next c item.id)
unfolding history_item get_queue get_order_strategy is_some
mark-history_item c item =
    ap (λ b. (item.id, b, b && str_eq item.id (next_id c.order_strategy c.queue)))
      (queue_map-has_id item.id 0 c.queue)
    ∙ ap (λ b. (item.id, has_id item.id c.queue, b))
        (next_taken c.order_strategy c.queue item.id ∙ sym (pastes_next-is_taken c item.id))

cong_cons : {A : Type 0} {x y : A} {xs ys : List A} → x ≡ y → xs ≡ ys → (x ∷ xs) ≡ (y ∷ ys)
cong_cons {x = x} {ys = ys} e es = ap (λ t. x ∷ t) es ∙ ap (λ h. h ∷ ys) e

-- The UI gets the items of the history, the last one first, each marked as queued exactly if the queue
-- holds an item of its ID, and as the next exactly if PasteNext takes an item of its ID out of the queue once
-- the queue is on.
pub build_history_dtos-marks :
    (c : Controller)
    → map {B = String × Bool × Bool} (λ d. (d.id, d.is_queued, d.is_next)) (build_history_dtos c)
      ≡ map (λ item. (item.id, has_id item.id c.queue, pastes_next c item.id)) (reverse c.history)
unfolding build_history_dtos get_history
build_history_dtos-marks c = marks (reverse c.history)
  where
    marks :
        (items : List Content)
        → map {B = String × Bool × Bool}
            (λ d. (d.id, d.is_queued, d.is_next))
            (map (history_item c) items)
          ≡ map (λ item. (item.id, has_id item.id c.queue, pastes_next c item.id)) items
    marks [] = refl
    marks (item ∷ items) = cong_cons (mark-history_item c item) (marks items)
