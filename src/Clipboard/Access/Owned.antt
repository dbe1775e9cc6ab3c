-- ===== src/Clipboard/Access/Owned.antt =====
-- Every handle that Write allocates is freed or given to the clipboard, once.
use clip_queue.Prelude.{
  ℕ, Bool, true, false, String, List, [], ◌∷◌, ◌++◌, Option, none, some, leb, if◌then◌else◌, ◌==◌,
  length, ◌≡◌, ◌≢◌, refl, ap, ◌∙◌, ◌⊎◌, inl, inr, Bool-cases, Option-cases, arith,
}
use clip_queue.Clipboard.Content.{Content, ContentType, empty, text, files, image}
use clip_queue.Clipboard.Dib.{Pixel, image_to_dib}
use clip_queue.Clipboard.Access.{
  Call, closed, emptied, freed, stored_sequence, Windows, ClipboardError, no_owner, Desk, Memory,
  at_rest, follow, follow_all, follow_all-append, go_on, use_memory, is_free,
}
use clip_queue.Clipboard.Access.Opening.{open_with_retry, open_with_retry-opened}
use clip_queue.Clipboard.Access.Write.{
  format_of, unit_bytes, drop_files, path_bytes, Prepared, prepared, not_prepared, fill, prepare,
  set_clipboard_data, fill_clipboard, place, clear, place_prepared, write_type, write,
}

-- The desk after the preparation: the block that it names is the program's, filled and unlocked.
abbrev holding : List ℕ → List (ℕ × List ℕ) → ℕ → Bool → Desk
holding bytes board h is_open = record {
  is_open = is_open;
  owned = some (record { handle = h; size = length bytes; bytes = bytes; is_locked = false });
  borrowed = none;
  board = board;
}

abbrev after_fill : List ℕ → List (ℕ × List ℕ) → Prepared → Desk
after_fill bytes board (not_prepared e) = at_rest board
after_fill bytes board (prepared h) = holding bytes board h false

abbrev HasHandle : Prepared → Type 0
HasHandle (not_prepared e) = Unit
HasHandle (prepared h) = (h == 0) ≡ false

fill-HasHandle : (windows : Windows) (bytes : List ℕ) → HasHandle (fill windows bytes).1
unfolding fill
fill-HasHandle windows bytes = elim (Bool-cases (windows.allocates (length bytes) == 0)) [
  | inl e ↦ rw e tt
  | inr e ↦ elim (Bool-cases (windows.locks (windows.allocates (length bytes)))) [
    | inl fine ↦ rw (e, fine) e
    | inr bad ↦ rw (e, bad) tt
  ]
]

module _ (windows : Windows) (board : List (ℕ × List ℕ)) where
  fill-follow_all :
      (bytes : List ℕ)
      → follow_all (fill windows bytes).0 (at_rest board)
        ≡ some (after_fill bytes board (fill windows bytes).1)
  unfolding fill follow_all follow at_rest use_memory
  fill-follow_all bytes =
      let h = windows.allocates (length bytes) in
      let same : (h == h) ≡ true = ground arith in
      let inside : leb (length bytes) (length bytes) ≡ true = ground arith in
      elim (Bool-cases (h == 0)) [
        | inl zero' ↦ ground arith
        | inr some' ↦ elim (Bool-cases (windows.locks h)) [
          | inl fine ↦ ground arith
          | inr bad ↦ ground arith
        ]
      ]

  -- The desk after the clipboard was filled and closed: its old content goes when it was emptied, and
  -- the new one is there if there is no error.
  abbrev Placed : ℕ → List ℕ → Option ClipboardError → Option Desk → Type 0
  Placed format bytes none d = d ≡ some (at_rest ((format, bytes) ∷ []))
  Placed format bytes (some e) d = (d ≡ some (at_rest board)) ⊎ (d ≡ some (at_rest []))

  fill_clipboard-Placed :
      (format h : ℕ) (bytes : List ℕ)
      → let r = fill_clipboard windows format h in
        Placed format bytes r.1 (follow_all r.0 (holding bytes board h true))
  unfolding fill_clipboard set_clipboard_data follow_all follow at_rest use_memory is_free
  fill_clipboard-Placed format h bytes =
      let same : (h == h) ≡ true = ground arith in
      elim (Bool-cases windows.empties) [
        | inr stays ↦ rw stays (inl (ground arith))
        | inl gone ↦ elim (Bool-cases (windows.sets format h)) [
          | inl fine ↦ rw (gone, fine) (ground arith)
          | inr bad ↦ rw (gone, bad) (inr (ground arith))
        ]
      ]

  free_follow :
      (h : ℕ) (bytes : List ℕ)
      → follow_all (freed h ∷ []) (holding bytes board h false) ≡ some (at_rest board)
  unfolding follow_all follow at_rest use_memory
  free_follow h bytes = ground arith

  -- What follows the tries starts with the clipboard as they left it.
  pub open_with_retry-go_on :
      (owned : Option Memory) (rest : List Call) (ok : Bool)
      → (open_with_retry windows.opens).1 ≡ ok
      → follow_all
          ((open_with_retry windows.opens).0 ++ rest)
          (record { is_open = false; owned = owned; borrowed = none; board = board })
        ≡ follow_all rest (record { is_open = ok; owned = owned; borrowed = none; board = board })
  open_with_retry-go_on owned rest ok e =
      follow_all-append (open_with_retry windows.opens).0 rest _
      ∙ ap (λ d. go_on d rest) (open_with_retry-opened windows.opens owned board)
      ∙ ap
          (λ b.
            follow_all rest (record { is_open = b; owned = owned; borrowed = none; board = board }))
          e

  place-Placed :
      (format h : ℕ) (bytes : List ℕ)
      → let r = place windows format h in
        Placed format bytes r.1 (follow_all r.0 (holding bytes board h false))
  unfolding place
  place-Placed format h bytes =
      let owned : Option Memory =
        some (record { handle = h; size = length bytes; bytes = bytes; is_locked = false }) in
      elim (Bool-cases (open_with_retry windows.opens).1) [
        | inl ok ↦
            rw (ok, open_with_retry-go_on owned (fill_clipboard windows format h).0 true ok)
              (fill_clipboard-Placed format h bytes)
        | inr bad ↦
            rw (bad, open_with_retry-go_on owned (freed h ∷ []) false bad)
              (inl (free_follow h bytes))
      ]

  -- The desk with the clipboard open and nothing else.
  abbrev pub open_desk : Desk
  open_desk = record { is_open = true; owned = none; borrowed = none; board = board }

  kept_follow : follow_all (emptied false ∷ closed ∷ []) open_desk ≡ some (at_rest board)
  unfolding follow_all follow is_free at_rest
  kept_follow = refl

  cleared_follow :
      follow_all (emptied true ∷ stored_sequence windows.sequence ∷ closed ∷ []) open_desk
      ≡ some (at_rest [])
  unfolding follow_all follow is_free at_rest
  cleared_follow = refl

  pub not_opened :
      (open_with_retry windows.opens).1 ≡ false
      → follow_all (open_with_retry windows.opens).0 (at_rest board) ≡ some (at_rest board)
  unfolding at_rest
  not_opened bad =
      open_with_retry-opened windows.opens none board
      ∙ ap (λ b. some (record { is_open = b; owned = none; borrowed = none; board = board })) bad

  abbrev Cleared : List Call × Option ClipboardError → Type 0
  Cleared r =
      ((r.1 ≡ none) × (follow_all r.0 (at_rest board) ≡ some (at_rest [])))
      ⊎ ((e : ClipboardError) × (r.1 ≡ some e)
          × (follow_all r.0 (at_rest board) ≡ some (at_rest board)))

  clear-Cleared : Cleared (clear windows)
  unfolding clear at_rest
  clear-Cleared = elim (Bool-cases (open_with_retry windows.opens).1) [
    | inr bad ↦ rw bad (inr (_, refl, not_opened bad))
    | inl ok ↦ elim (Bool-cases windows.empties) [
      | inr stays ↦
          rw (ok, stays)
            (inr (
              _,
              refl,
              open_with_retry-go_on none (emptied false ∷ closed ∷ []) true ok ∙ kept_follow,
            ))
      | inl gone ↦
          rw (ok, gone)
            (inl (
              refl,
              open_with_retry-go_on none
                    (emptied true ∷ stored_sequence windows.sequence ∷ closed ∷ []) true ok
                  ∙ cleared_follow,
            ))
    ]
  ]

module _ (utf16 : String → Option (List ℕ))
    (png_decode : List ℕ → Option (ℕ × List (List Pixel))) where
  -- The bytes that stand for a content, if there are any.
  unfoldable pub payload : ContentType → Content → Option (List ℕ)
  payload text content = elim (utf16 content.text) [
    | none ↦ none
    | some units ↦ some (unit_bytes units)
  ]
  payload files content = some (drop_files ++ (path_bytes utf16 content.files ++ 0 ∷ 0 ∷ []))
  payload image content = elim (png_decode content.image_png) [
    | none ↦ none
    | some picture ↦ image_to_dib picture.0 picture.1
  ]
  payload empty content = none

  -- What the clipboard holds when it shows the content.
  abbrev pub Shows : ContentType → Content → List (ℕ × List ℕ) → Type 0
  Shows empty content board = board ≡ []
  Shows kind content board =
      (bytes : List ℕ) × (payload kind content ≡ some bytes)
      × (board ≡ (format_of kind, bytes) ∷ [])

  -- The outcome of Write: the new content without an error, or the old one or none with one.
  abbrev pub Written :
      ContentType → Content → List (ℕ × List ℕ) → List Call × Option ClipboardError → Type 0
  Written kind content board r =
      (after : List (ℕ × List ℕ)) × (follow_all r.0 (at_rest board) ≡ some (at_rest after))
      × (((r.1 ≡ none) × Shows kind content after)
          ⊎ ((e : ClipboardError) × (r.1 ≡ some e) × ((after ≡ board) ⊎ (after ≡ []))))

  module _ (windows : Windows) (board : List (ℕ × List ℕ)) (content : Content) where
    refused : (kind : ContentType) (e : ClipboardError) → Written kind content board ([], some e)
    unfolding follow_all
    refused kind e = (board, refl, inr (e, refl, inl refl))

    Shows-payload :
        (kind : ContentType) (bytes : List ℕ)
        → payload kind content ≡ some bytes
        → Shows kind content ((format_of kind, bytes) ∷ [])
    unfolding payload
    Shows-payload empty bytes e = cc
    Shows-payload text bytes e = (bytes, e, refl)
    Shows-payload files bytes e = (bytes, e, refl)
    Shows-payload image bytes e = (bytes, e, refl)

    Placed-Written :
        (kind : ContentType) (bytes : List ℕ) (calls : List Call) (r : Option ClipboardError)
        → payload kind content ≡ some bytes
        → Placed windows board (format_of kind) bytes r (follow_all calls (at_rest board))
        → Written kind content board (calls, r)
    Placed-Written kind bytes calls none e placed =
        ((format_of kind, bytes) ∷ [], placed, inl (refl, Shows-payload kind bytes e))
    Placed-Written kind bytes calls (some bad) e (inl kept) =
        (board, kept, inr (bad, refl, inl refl))
    Placed-Written kind bytes calls (some bad) e (inr gone) = ([], gone, inr (bad, refl, inr refl))

    place_prepared-Written :
        (kind : ContentType) (bytes : List ℕ) (calls : List Call) (p : Prepared)
        → payload kind content ≡ some bytes
        → follow_all calls (at_rest board) ≡ some (after_fill bytes board p)
        → HasHandle p
        → Written kind content board (place_prepared windows (format_of kind) (calls, p))
    unfolding place_prepared
    place_prepared-Written kind bytes calls (not_prepared bad) e filled there =
        (board, filled, inr (bad, refl, inl refl))
    place_prepared-Written kind bytes calls (prepared h) e filled there = rw there (
        Placed-Written kind bytes (calls ++ (place windows (format_of kind) h).0) _ e (
          rw (follow_all-append calls (place windows (format_of kind) h).0 (at_rest board), filled)
            (place-Placed windows board (format_of kind) h bytes)))

    fill-Written :
        (kind : ContentType) (bytes : List ℕ)
        → payload kind content ≡ some bytes
        → Written kind content board (place_prepared windows (format_of kind) (fill windows bytes))
    fill-Written kind bytes e =
        place_prepared-Written kind bytes (fill windows bytes).0 (fill windows bytes).1 e
          (fill-follow_all windows board bytes) (fill-HasHandle windows bytes)

    not_prepared-Written :
        (kind : ContentType) (format : ℕ) (e : ClipboardError)
        → Written kind content board (place_prepared windows format ([], not_prepared e))
    unfolding place_prepared follow_all
    not_prepared-Written kind format e = (board, refl, inr (e, refl, inl refl))

    prepare-Written :
        (kind : ContentType)
        → kind ≢ empty
        → Written kind content board (
            place_prepared windows (format_of kind) (prepare windows utf16 png_decode kind content))
    unfolding prepare payload
    prepare-Written empty other = absurd (other refl)
    prepare-Written text other = elim (Option-cases (utf16 content.text)) [
      | inl e ↦ rw (prepare, e) (not_prepared-Written text (format_of text) _)
      | inr (units, e) ↦
          rw (prepare, e) (fill-Written text (unit_bytes units) (rw (payload, e) refl))
    ]
    prepare-Written files other = fill-Written files _ refl
    prepare-Written image other = elim (Option-cases (png_decode content.image_png)) [
      | inl e ↦ rw (prepare, e) (not_prepared-Written image (format_of image) _)
      | inr (picture, e) ↦ elim (Option-cases (image_to_dib picture.0 picture.1)) [
        | inl bad ↦ rw (prepare, e, bad) (not_prepared-Written image (format_of image) _)
        | inr (dib, fine) ↦
            rw (prepare, e, fine) (fill-Written image dib (rw (payload, e, fine) refl))
      ]
    ]

    owned_by-Written :
        (kind : ContentType)
        → kind ≢ empty
        → Written kind content board (
            if windows.owner == 0
            then ([], some no_owner)
            else place_prepared windows
                (format_of kind)
                (prepare windows utf16 png_decode kind content))
    owned_by-Written kind other = elim (Bool-cases (windows.owner == 0)) [
      | inl e ↦ rw e (refused kind no_owner)
      | inr e ↦ rw e (prepare-Written kind other)
    ]

    write_type-Written :
        (kind : ContentType)
        → Written kind content board (write_type windows utf16 png_decode kind content)
    unfolding write_type
    write_type-Written text = owned_by-Written text (λ e. cc)
    write_type-Written files = owned_by-Written files (λ e. cc)
    write_type-Written image = owned_by-Written image (λ e. cc)
    write_type-Written empty = elim (clear-Cleared windows board) [
      | inl (fine, done) ↦ ([], done, inl (fine, refl))
      | inr (e, bad, kept) ↦ (board, kept, inr (e, bad, inl refl))
    ]

    -- Whatever Windows answers, Write keeps to its rules: memory is filled within its size, each block
    -- that was allocated is freed or given to the clipboard, once, and the clipboard is closed if it
    -- was opened. Without an error the clipboard shows the content and nothing else; with one it holds
    -- what it held, or nothing.
    pub write-Written : Written content.kind content board (write windows utf16 png_decode content)
    unfolding write
    write-Written = write_type-Written content.kind
