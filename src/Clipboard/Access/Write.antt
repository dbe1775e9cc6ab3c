-- ===== src/Clipboard/Access/Write.antt =====
-- platform/windows/clipboard.go: Write. The standard library's `UTF16FromString` is an argument, and
-- so is `png.Decode` with the drawing into an `image.RGBA`, which gives a width and rows. Of the three
-- handles of the code only the one of the content's type is ever set; the model has that one.
use clip_queue.Prelude.{
  ℕ, ◌/◌, ◌%◌, true, false, not, String, List, [], ◌∷◌, ◌++◌, Option, none, some, if◌then◌else◌,
  ◌==◌, length,
}
use clip_queue.Clipboard.Content.{Content, ContentType, empty, text, files, image}
use clip_queue.Clipboard.Dib.{Pixel, image_to_dib}
use clip_queue.Clipboard.Access.{
  Call, closed, emptied, allocated, locked, copied, unlocked, freed, given, stored_sequence,
  Windows, ClipboardError, os_error, no_owner, no_handle, bad_text, bad_png, set_failed, panicked,
}
use clip_queue.Clipboard.Access.Opening.{open_with_retry}

abbrev pub cf_unicodetext : ℕ
cf_unicodetext = 13

abbrev pub cf_hdrop : ℕ
cf_hdrop = 15

abbrev pub cf_dib : ℕ
cf_dib = 8

-- The format under which a type is written.
unfoldable pub format_of : ContentType → ℕ
format_of text = cf_unicodetext
format_of files = cf_hdrop
format_of image = cf_dib
format_of empty = 0

-- The bytes of UTF-16 units, as they stand in memory.
unfoldable pub unit_bytes : List ℕ → List ℕ
unit_bytes [] = []
unit_bytes (u ∷ units) = u % 256 ∷ u / 256 % 256 ∷ unit_bytes units

-- `DROPFILES` with `pFiles` twenty and `fWide` one.
abbrev pub drop_files : List ℕ
drop_files = 20 ∷ 0 ∷ 0 ∷ 0 ∷ 0 ∷ 0 ∷ 0 ∷ 0 ∷ 0 ∷ 0 ∷ 0 ∷ 0 ∷ 0 ∷ 0 ∷ 0 ∷ 0 ∷ 1 ∷ 0 ∷ 0 ∷ 0 ∷ []

-- A path that has no UTF-16 form is left out.
unfoldable pub path_bytes : (String → Option (List ℕ)) → List String → List ℕ
unfolding unit_bytes
path_bytes utf16 [] = []
path_bytes utf16 (file ∷ rest) = elim (utf16 file) [
  | none ↦ path_bytes utf16 rest
  | some units ↦ unit_bytes units ++ path_bytes utf16 rest
]

pub data Prepared : Type 0 where
  not_prepared : ClipboardError → Prepared
  prepared : (handle : ℕ) → Prepared

module _ (windows : Windows) where
  -- Allocating, locking, filling and unlocking.
  unfoldable pub fill : List ℕ → List Call × Prepared
  fill bytes =
      let size = length bytes in
      let h = windows.allocates size in
      if h == 0
      then (allocated size h ∷ [], not_prepared (os_error windows.last_error))
      else if not (windows.locks h)
      then (
        allocated size h ∷ locked h false ∷ freed h ∷ [],
        not_prepared (os_error windows.last_error),
      )
      else (allocated size h ∷ locked h true ∷ copied h bytes ∷ unlocked h ∷ [], prepared h)

  -- The `switch` on the type, which is the first argument.
  unfoldable pub prepare :
      (String → Option (List ℕ))
      → (List ℕ → Option (ℕ × List (List Pixel)))
      → ContentType
      → Content
      → List Call × Prepared
  prepare utf16 png_decode text content = elim (utf16 content.text) [
    | none ↦ ([], not_prepared bad_text)
    | some units ↦ fill (unit_bytes units)
  ]
  prepare utf16 png_decode files content =
      fill (drop_files ++ (path_bytes utf16 content.files ++ 0 ∷ 0 ∷ []))
  prepare utf16 png_decode image content = elim (png_decode content.image_png) [
    | none ↦ ([], not_prepared bad_png)
    | some picture ↦ elim (image_to_dib picture.0 picture.1) [
      | none ↦ ([], not_prepared panicked)
      | some dib ↦ fill dib
    ]
  ]
  prepare utf16 png_decode empty content = ([], prepared 0)

  -- `setClipboardData`, which frees the memory if the clipboard does not take it.
  unfoldable pub set_clipboard_data : ℕ → ℕ → List Call × Option ClipboardError
  set_clipboard_data format h =
      if windows.sets format h
      then (given format h true ∷ [], none)
      else (given format h false ∷ freed h ∷ [], some (set_failed format windows.last_error))

  -- From the emptying of the open clipboard to its closing.
  unfoldable pub fill_clipboard : ℕ → ℕ → List Call × Option ClipboardError
  fill_clipboard format h =
      if not windows.empties
      then (emptied false ∷ freed h ∷ closed ∷ [], some (os_error windows.last_error))
      else let (calls, e) = set_clipboard_data format h in
        elim e [
          | none ↦ (emptied true ∷ (calls ++ stored_sequence windows.sequence ∷ closed ∷ []), none)
          | some bad ↦ (emptied true ∷ (calls ++ closed ∷ []), some bad)
        ]

  -- From the opening of the clipboard on.
  unfoldable pub place : ℕ → ℕ → List Call × Option ClipboardError
  place format h =
      let (calls, ok) = open_with_retry windows.opens in
      let (rest, e) = fill_clipboard format h in
      if ok then (calls ++ rest, e) else (calls ++ freed h ∷ [], some (os_error windows.last_error))

  -- The case of an empty content.
  unfoldable pub clear : List Call × Option ClipboardError
  clear =
      let (calls, ok) = open_with_retry windows.opens in
      if not ok
      then (calls, some (os_error windows.last_error))
      else if not windows.empties
      then (calls ++ emptied false ∷ closed ∷ [], some (os_error windows.last_error))
      else (calls ++ emptied true ∷ stored_sequence windows.sequence ∷ closed ∷ [], none)

  unfoldable pub place_prepared : ℕ → List Call × Prepared → List Call × Option ClipboardError
  place_prepared format (calls, not_prepared e) = (calls, some e)
  place_prepared format (calls, prepared h) =
      let (rest, e) = place format h in
      if h == 0 then (calls, some no_handle) else (calls ++ rest, e)

  -- `Write` of a content of the type.
  unfoldable pub write_type :
      (String → Option (List ℕ))
      → (List ℕ → Option (ℕ × List (List Pixel)))
      → ContentType
      → Content
      → List Call × Option ClipboardError
  write_type utf16 png_decode empty content = clear
  write_type utf16 png_decode kind content =
      if windows.owner == 0
      then ([], some no_owner)
      else place_prepared (format_of kind) (prepare utf16 png_decode kind content)

  -- `Write`
  unfoldable pub write :
      (String → Option (List ℕ))
      → (List ℕ → Option (ℕ × List (List Pixel)))
      → Content
      → List Call × Option ClipboardError
  unfolding write_type
  write utf16 png_decode content = write_type utf16 png_decode content.kind content
