-- ===== src/Clipboard/Access.antt =====
-- platform/windows/clipboard.go: the calls by which Read and Write use the clipboard and the global
-- memory of Windows, with their answers, and the rules that Windows sets for them.
pub mod Opening
pub mod Write
pub mod Owned
pub mod Read
pub mod Closed
pub mod Back
use clip_queue.Prelude.{
  ℕ, zero, suc, ◌+◌, Bool, true, false, not, ◌&&◌, ◌||◌, String, List, [], ◌∷◌, ◌++◌, Option, none,
  some, if◌then◌else◌, ◌==◌, leb, length, ◌≡◌, refl, Option-cases, inl, inr,
}

-- A call with its arguments and what it answered. The calls from `got` on are about the memory that
-- the clipboard keeps; those from `allocated` to `freed` about memory of the program.
pub data Call : Type 0 where
  opened : Bool → Call
  slept_ms : ℕ → Call
  closed : Call
  emptied : Bool → Call
  allocated : (size handle : ℕ) → Call
  locked : (handle : ℕ) → Bool → Call
  copied : (handle : ℕ) → List ℕ → Call
  unlocked : (handle : ℕ) → Call
  freed : (handle : ℕ) → Call
  given : (format handle : ℕ) → Bool → Call
  stored_sequence : ℕ → Call
  got : (format handle : ℕ) → Call
  got_locked : (handle : ℕ) → Bool → Call
  got_copied : (handle : ℕ) → Call
  got_unlocked : (handle : ℕ) → Call

-- What Windows answers: one function for each procedure, with the try for `OpenClipboard`.
pub record Windows : Type 0 where
  pub owner : ℕ
  pub opens : ℕ → Bool
  pub empties : Bool
  pub allocates : ℕ → ℕ
  pub locks : ℕ → Bool
  pub sets : ℕ → ℕ → Bool
  pub sequence : ℕ
  pub last_error : ℕ
  pub has_format : ℕ → Bool
  pub clipboard_data : ℕ → ℕ
  pub global_size : ℕ → ℕ
  pub memory : ℕ → List ℕ
  pub drag_count : ℕ → ℕ
  pub path_length : ℕ → ℕ → ℕ
  pub path_copied : ℕ → ℕ → ℕ
  pub path_text : ℕ → ℕ → String

pub data ClipboardError : Type 0 where
  os_error : ℕ → ClipboardError
  no_owner : ClipboardError
  no_handle : ClipboardError
  bad_text : ClipboardError
  bad_png : ClipboardError
  set_failed : (format code : ℕ) → ClipboardError
  bad_size : ℕ → ClipboardError
  unsupported_dib : (format : ℕ) → ClipboardError
  png_error : ClipboardError
  panicked : ClipboardError

-- A block of the program's memory that is neither freed nor the clipboard's.
pub record Memory : Type 0 where
  pub handle : ℕ
  pub size : ℕ
  pub bytes : List ℕ
  pub is_locked : Bool

-- What the calls have led to. `borrowed` is the clipboard's memory that is locked, and `board` what
-- the clipboard holds, a format and bytes for each entry.
pub record Desk : Type 0 where
  pub is_open : Bool
  pub owned : Option Memory
  pub borrowed : Option ℕ
  pub board : List (ℕ × List ℕ)

-- The desk on which the program has nothing open, owned or borrowed.
unfoldable pub at_rest : List (ℕ × List ℕ) → Desk
at_rest board = record { is_open = false; owned = none; borrowed = none; board = board }

unfoldable pub is_free : Option ℕ → Bool
is_free none = true
is_free (some handle) = false

-- `none` is a call that breaks the rules.
unfoldable pub use_memory : (Memory → Option (Option Memory)) → Desk → Option Desk
use_memory f d = elim d.owned [
  | none ↦ none
  | some m ↦ elim (f m) [ none ↦ none | some left ↦ some (record d { owned = left }) ]
]

-- One call: the clipboard is opened when it is closed, and used while it is open; memory is locked,
-- filled within its size, unlocked, and then freed or given away, once.
unfoldable pub follow : Call → Desk → Option Desk
unfolding use_memory is_free
follow (opened ok) d = if d.is_open then none else some (record d { is_open = ok })
follow (slept_ms n) d = if d.is_open then none else some d
follow closed d =
    if d.is_open && is_free d.borrowed then some (record d { is_open = false }) else none
follow (emptied ok) d =
    if d.is_open then some (record d { board = if ok then [] else d.board }) else none
follow (allocated size h) d = elim d.owned [
  | some m ↦ none
  | none ↦ some (
      if h == 0 then d else record d {
        owned = some (record { handle = h; size = size; bytes = []; is_locked = false });
      })
]
follow (locked h ok) d =
    use_memory
      (λ m.
        if (m.handle == h) && not m.is_locked
        then some (some (record m { is_locked = ok }))
        else none)
      d
follow (copied h bytes) d =
    use_memory
      (λ m.
        if (m.handle == h) && (m.is_locked && leb (length bytes) m.size)
        then some (some (record m { bytes = bytes }))
        else none)
      d
follow (unlocked h) d =
    use_memory
      (λ m.
        if (m.handle == h) && m.is_locked
        then some (some (record m { is_locked = false }))
        else none)
      d
follow (freed h) d =
    use_memory (λ m. if (m.handle == h) && not m.is_locked then some none else none) d
follow (given format h ok) d = elim d.owned [
  | none ↦ none
  | some m ↦
      if d.is_open && ((m.handle == h) && not m.is_locked)
      then some (if ok then record d { owned = none; board = (format, m.bytes) ∷ d.board } else d)
      else none
]
follow (stored_sequence n) d = some d
follow (got format h) d = if d.is_open then some d else none
follow (got_locked h ok) d =
    if d.is_open && is_free d.borrowed
    then some (record d { borrowed = if ok then some h else none })
    else none
follow (got_copied h) d = elim d.borrowed [ none ↦ none | some b ↦ if b == h then some d else none ]
follow (got_unlocked h) d = elim d.borrowed [
  | none ↦ none
  | some b ↦ if b == h then some (record d { borrowed = none }) else none
]

unfoldable pub follow_all : List Call → Desk → Option Desk
follow_all [] d = some d
follow_all (c ∷ calls) d = elim (follow c d) [ none ↦ none | some d2 ↦ follow_all calls d2 ]

abbrev pub go_on : Option Desk → List Call → Option Desk
go_on none calls = none
go_on (some d) calls = follow_all calls d

pub follow_all-append :
    (calls more : List Call) (d : Desk)
    → follow_all (calls ++ more) d ≡ go_on (follow_all calls d) more
unfolding follow_all
follow_all-append [] more d = refl
follow_all-append (c ∷ calls) more d = elim (Option-cases (follow c d)) [
  | inl e ↦ rw (follow_all, e) refl
  | inr (d2, e) ↦ rw (follow_all, e) (follow_all-append calls more d2)
]
