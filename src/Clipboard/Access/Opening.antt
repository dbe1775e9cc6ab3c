-- ===== src/Clipboard/Access/Opening.antt =====
-- platform/windows/clipboard.go: openClipboardWithRetry.
use clip_queue.Prelude.{
  ℕ, zero, suc, ◌+◌, ◌*◌, ◌^◌, Bool, true, false, List, [], ◌∷◌, Option, none, some, if◌then◌else◌,
  ◌≡◌, refl, inl, inr, Bool-cases,
}
use clip_queue.Clipboard.Access.{Call, opened, slept_ms, Memory, follow, follow_all}

abbrev pub max_retries : ℕ
max_retries = 5

-- The loop from the try `i` on; the first argument counts the tries that are left.
unfoldable pub open_tries : (ℕ → Bool) → ℕ → ℕ → List Call × Bool
open_tries opens zero i = ([], false)
open_tries opens (suc left) i =
    let (calls, ok) = open_tries opens left (i + 1) in
    if opens i then (opened true ∷ [], true) else (opened false ∷ slept_ms (50 * 2 ^ i) ∷ calls, ok)

unfoldable pub open_with_retry : (ℕ → Bool) → List Call × Bool
unfolding open_tries
open_with_retry opens = open_tries opens max_retries 0

-- How often the clipboard is tried, and how long the pauses are.
unfoldable pub tries : List Call → ℕ
tries [] = 0
tries (opened ok ∷ calls) = suc (tries calls)
tries (_ ∷ calls) = tries calls

unfoldable pub pauses_ms : List Call → ℕ
pauses_ms [] = 0
pauses_ms (slept_ms n ∷ calls) = n + pauses_ms calls
pauses_ms (_ ∷ calls) = pauses_ms calls

open_tries-opened :
    (opens : ℕ → Bool) (left i : ℕ) (owned : Option Memory) (board : List (ℕ × List ℕ))
    → follow_all
        (open_tries opens left i).0
        (record { is_open = false; owned = owned; borrowed = none; board = board })
      ≡ some (record {
        is_open = (open_tries opens left i).1;
        owned = owned;
        borrowed = none;
        board = board;
      })
unfolding open_tries follow_all follow
open_tries-opened opens zero i owned board = refl
open_tries-opened opens (suc left) i owned board = elim (Bool-cases (opens i)) [
  | inl e ↦ rw (open_tries, e) refl
  | inr e ↦ rw (open_tries, e) (open_tries-opened opens left (i + 1) owned board)
]

-- The clipboard is open after the tries exactly if they tell so, and nothing else has changed.
pub open_with_retry-opened :
    (opens : ℕ → Bool) (owned : Option Memory) (board : List (ℕ × List ℕ))
    → follow_all
        (open_with_retry opens).0
        (record { is_open = false; owned = owned; borrowed = none; board = board })
      ≡ some (record {
        is_open = (open_with_retry opens).1;
        owned = owned;
        borrowed = none;
        board = board;
      })
unfolding open_with_retry
open_with_retry-opened opens owned board = open_tries-opened opens max_retries 0 owned board
