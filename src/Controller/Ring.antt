-- ===== src/Controller/Ring.antt =====
-- The ring of the controller's own clipboard changes is a window over the last ones recorded.
use clip_queue.Prelude.{
  ℕ, zero, suc, ◌+◌, ◌-◌, ◌%◌, ◌≤◌, ◌<◌, ◌≡◌, ◌⊎◌, inl, inr, ◌≢◌, true, false, List, [], ◌∷◌, some,
  if◌then◌else◌, ltb, ap, ◌==◌, length, get_elem?, get_elem?-set_self, get_elem?-set_ne, arith, ◌∙◌,
  Bool-cases, sym,
}
use clip_queue.Controller.State.{Controller, ring_buffer_size}
use clip_queue.Controller.Queue.{add_self_event_locked, contains, is_self_event}
use clip_queue.Controller.Invariant.{IsValid, add_self_event_locked-IsValid}

-- The numbers are recorded from left to right.
unfoldable pub record_all : List ℕ → Controller → Controller
record_all [] c = c
record_all (seq ∷ seqs) c = record_all seqs (add_self_event_locked seq c)

contains-get_elem? :
    (ring : List ℕ) (i seq : ℕ) → get_elem? ring i ≡ some seq → contains ring seq ≡ true
unfolding contains
contains-get_elem? [] i seq h = cc
contains-get_elem? (x ∷ ring) zero seq h = ground arith
contains-get_elem? (x ∷ ring) (suc i) seq h = ground (arith, contains-get_elem? ring i seq h)

-- `i` is `d` steps ahead of `j` on the ring.
abbrev Ahead : ℕ → ℕ → ℕ → Type 0
Ahead j d i = (i ≡ j + d) ⊎ (i + ring_buffer_size ≡ j + d)

advance :
    (seq : ℕ) (c : Controller)
    → IsValid c
    → (add_self_event_locked seq c).ring_index ≡ (c.ring_index + 1) % ring_buffer_size
unfolding add_self_event_locked
advance seq c v = ap (λ n. (c.ring_index + 1) % n) v.ring_fixed

written :
    (seq : ℕ) (c : Controller)
    → IsValid c
    → get_elem? (add_self_event_locked seq c).self_events_ring c.ring_index ≡ some seq
unfolding add_self_event_locked
written seq c v = get_elem?-set_self c.self_events_ring c.ring_index seq (omega arith)

kept :
    (later : List ℕ) (c : Controller) (i d seq : ℕ)
    → IsValid c
    → i < ring_buffer_size
    → d < ring_buffer_size
    → Ahead c.ring_index d i
    → length later ≤ d
    → get_elem? c.self_events_ring i ≡ some seq
    → get_elem? (record_all later c).self_events_ring i ≡ some seq
unfolding record_all add_self_event_locked
kept [] c i d seq v hi hd a h e = e
kept (x ∷ later) c i d seq v hi hd a h e =
    kept later (add_self_event_locked x c) i (d - 1) seq (add_self_event_locked-IsValid x c v) hi
      (omega arith) (omega (arith, advance x c v)) (omega arith)
      (get_elem?-set_ne c.self_events_ring x (omega arith) ∙ e)

-- In a valid controller each of the last eight recorded numbers counts as an own change.
pub is_self_event-record_all :
    (c : Controller) (seq : ℕ) (later : List ℕ)
    → IsValid c
    → length later < ring_buffer_size
    → is_self_event (record_all later (add_self_event_locked seq c)) seq ≡ true
unfolding is_self_event
is_self_event-record_all c seq later v h = contains-get_elem? _ c.ring_index seq (
    kept later (add_self_event_locked seq c) c.ring_index 7 seq
      (add_self_event_locked-IsValid seq c v) (omega arith) (omega arith)
      (omega (arith, advance seq c v)) (omega arith) (written seq c v))

overwritten :
    (later : List ℕ) (c : Controller) (i d x : ℕ)
    → IsValid c
    → i < ring_buffer_size
    → Ahead c.ring_index d i
    → d < length later
    → length later ≤ ring_buffer_size
    → contains later x ≡ false
    → get_elem? (record_all later c).self_events_ring i ≢ some x
unfolding record_all contains
overwritten [] c i d x v hi a h fits none_is_x = absurd (omega arith)
overwritten (y ∷ later) c i zero x v hi a h fits none_is_x = λ e.
    let i_is_index : i ≡ c.ring_index = omega arith in
    let still_y =
      kept later (add_self_event_locked y c) c.ring_index 7 y (add_self_event_locked-IsValid y c v)
        (omega arith) (omega arith) (omega (arith, advance y c v)) (omega arith) (written y c v) in
    ground (arith, still_y)
overwritten (y ∷ later) c i (suc d) x v hi a h fits none_is_x =
    overwritten later (add_self_event_locked y c) i d x (add_self_event_locked-IsValid y c v) hi
      (omega (arith, advance y c v)) (omega arith) (omega arith) (ground arith)

get_elem?-contains :
    (ring : List ℕ) (x : ℕ)
    → contains ring x ≡ true
    → (i : ℕ) × (i < length ring) × (get_elem? ring i ≡ some x)
unfolding contains
get_elem?-contains [] x h = cc
get_elem?-contains (y ∷ ring) x h = elim (Bool-cases (y == x)) [
  | inl here ↦ (0, omega arith, ground arith)
  | inr there ↦
      let (i, lt, e) = get_elem?-contains ring x (rw there at h) in (suc i, omega arith, e)
]

record_all-IsValid : (later : List ℕ) (c : Controller) → IsValid c → IsValid (record_all later c)
unfolding record_all
record_all-IsValid [] c v = v
record_all-IsValid (x ∷ later) c v =
    record_all-IsValid later (add_self_event_locked x c) (add_self_event_locked-IsValid x c v)

-- How far position `i` is ahead of the index `j`.
ahead_by : ℕ → ℕ → ℕ
ahead_by j i = if ltb i j then i + ring_buffer_size - j else i - j

ahead_by-Ahead :
    (j i : ℕ)
    → j < ring_buffer_size
    → i < ring_buffer_size
    → (ahead_by j i < ring_buffer_size) × Ahead j (ahead_by j i) i
unfolding ahead_by
ahead_by-Ahead j i hj hi = ground arith

-- What is not among the last eight recorded numbers counts as foreign.
pub is_self_event-forgets :
    (c : Controller) (x : ℕ) (later : List ℕ)
    → IsValid c
    → length later ≡ ring_buffer_size
    → contains later x ≡ false
    → is_self_event (record_all later c) x ≡ false
unfolding is_self_event
is_self_event-forgets c x later v full foreign =
    elim (Bool-cases (contains (record_all later c).self_events_ring x)) [
      | inr no_match ↦ no_match
      | inl match ↦
          let (i, lt, e) = get_elem?-contains _ x match in
          let w = record_all-IsValid later c v in
          let (near, ahead) =
            ahead_by-Ahead c.ring_index i (omega arith)
              (omega (arith, w.ring_full, w.ring_fixed)) in
          absurd (
            overwritten later c i (ahead_by c.ring_index i) x v
              (omega (arith, w.ring_full, w.ring_fixed)) ahead (omega arith) (omega arith) foreign
              e)
    ]

recognised :
    (later : List ℕ) (c : Controller) (x : ℕ)
    → IsValid c
    → length later ≤ ring_buffer_size
    → contains later x ≡ true
    → is_self_event (record_all later c) x ≡ true
unfolding record_all contains
recognised [] c x v fits h = cc
recognised (y ∷ later) c x v fits h = elim (Bool-cases (y == x)) [
  | inl here ↦ ground (arith, is_self_event-record_all c y later v)
  | inr there ↦
      recognised later (add_self_event_locked y c) x (add_self_event_locked-IsValid y c v)
        (omega arith) (rw there at h)
]

-- In a valid controller, once eight numbers have been recorded, exactly these count as own changes.
pub is_self_event-window :
    (c : Controller) (x : ℕ) (later : List ℕ)
    → IsValid c
    → length later ≡ ring_buffer_size
    → is_self_event (record_all later c) x ≡ contains later x
is_self_event-window c x later v full = elim (Bool-cases (contains later x)) [
  | inl own ↦ recognised later c x v (omega arith) own ∙ sym own
  | inr foreign ↦ is_self_event-forgets c x later v full foreign ∙ sym foreign
]
