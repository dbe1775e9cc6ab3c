-- ===== src/Clipboard/Access/Read.antt =====
-- platform/windows/clipboard.go: Read and ReadForClipboardWatcher. The standard library's functions
-- on texts, UTF-16, PNG and times are the fields of `Library`.
use Prim.Native.String.{len, ◌++◌ as str_append}
use clip_queue.Prelude.{
  ℕ, zero, suc, ◌+◌, ◌*◌, ◌%◌, ◌^◌, Bool, true, false, not, ◌||◌, String, List, [], ◌∷◌, ◌++◌,
  Option, none, some, if◌then◌else◌, ◌==◌, ltb, leb, length, take,
}
use clip_queue.Clipboard.Content.{Content, text, files, image, zero_content}
use clip_queue.Clipboard.Dib.{Picture}
use clip_queue.Clipboard.Dib.Decode.{
  dib_to_png, Png, png_unsupported, png_panics, png_failed, png_bytes,
}
use clip_queue.Clipboard.Access.{
  Call, closed, got, got_locked, got_copied, got_unlocked, Windows, ClipboardError, os_error,
  bad_size, unsupported_dib, png_error, panicked,
}
use clip_queue.Clipboard.Access.Opening.{open_with_retry}
use clip_queue.Clipboard.Access.Write.{cf_unicodetext, cf_hdrop, cf_dib}

pub record Library : Type 0 where
  pub utf16_to_string : List ℕ → String
  pub clean_text : String → String
  pub runes : String → List ℕ
  pub of_runes : List ℕ → String
  pub png_encode : Picture → Option (List ℕ)
  pub png_config : List ℕ → Option (ℕ × ℕ)
  pub size_text : ℕ → ℕ → String

abbrev pub cf_dibv5 : ℕ
cf_dibv5 = 17

-- What a reading gives: the content, and the error if there is one.
abbrev pub Reading : Type 0
Reading = Content × Option ClipboardError

-- A value or an error.
pub data Result (A : Type 0) : Type 0 where
  found : A → Result A
  failed : ClipboardError → Result A

-- `calculateFilesSize`
unfoldable pub paths_size : List String → ℕ
paths_size [] = 0
paths_size (file ∷ rest) = len file * 2 + paths_size rest

unfoldable pub calculate_files_size : List String → ℕ
unfolding paths_size
calculate_files_size files' = paths_size files' + 2 + 20

-- `formatFilesPreview` from the path with the index `i` on.
unfoldable pub preview_from : ℕ → List String → String
preview_from i [] = ""
preview_from i (file ∷ rest) =
    if leb 3 i
    then ", ..."
    else str_append (if ltb 0 i then ", " else "") (str_append file (preview_from (i + 1) rest))

unfoldable pub format_files_preview : List String → String
unfolding preview_from
format_files_preview files' = preview_from 0 files'

-- The units of a block of memory, and those before the first zero.
unfoldable pub units_of : List ℕ → List ℕ
units_of (lo ∷ hi ∷ bytes) = (lo + 256 * hi) ∷ units_of bytes
units_of _ = []

unfoldable pub before_zero : List ℕ → List ℕ
before_zero [] = []
before_zero (u ∷ units) = let rest = before_zero units in if u == 0 then [] else u ∷ rest

module _ (library : Library) where
  unfoldable pub format_text_preview : String → String
  format_text_preview s =
      let clean = library.clean_text s in
      let runes = library.runes clean in
      if leb (length runes) 80 then clean else str_append (library.of_runes (take 80 runes)) "..."

  unfoldable pub format_image_preview : List ℕ → String
  format_image_preview bytes = elim (library.png_config bytes) [
    | none ↦ "Invalid PNG image"
    | some size ↦ str_append (library.size_text size.0 size.1) " PNG"
  ]

module _ (windows : Windows) where
  -- The memory behind a format: asked for, locked, measured, copied and unlocked.
  unfoldable pub read_memory : ℕ → ℕ → (ℕ → ClipboardError) → List Call × Result (List ℕ)
  read_memory format limit wrong_size =
      let h = windows.clipboard_data format in
      let size = windows.global_size h in
      if h == 0
      then (got format h ∷ [], failed (os_error windows.last_error))
      else if not (windows.locks h)
      then (got format h ∷ got_locked h false ∷ [], failed (os_error windows.last_error))
      else if (size == 0) || ltb limit size
      then (got format h ∷ got_locked h true ∷ got_unlocked h ∷ [], failed (wrong_size size))
      else (
        got format h ∷ got_locked h true ∷ got_copied h ∷ got_unlocked h ∷ [],
        found (take size (windows.memory h)),
      )

  -- `readClipboardDIBBytes`
  unfoldable pub read_clipboard_dib_bytes : ℕ → List Call × Result (List ℕ)
  unfolding read_memory
  read_clipboard_dib_bytes format = read_memory format (200 * 1024 * 1024) bad_size

  -- The text of the units before the first zero.
  unfoldable pub text_of :
      (List ℕ → String) → List Call × Result (List ℕ) → List Call × Result String
  text_of utf16_to_string (calls, failed e) = (calls, failed e)
  text_of utf16_to_string (calls, found bytes) =
      (calls, found (utf16_to_string (before_zero (units_of bytes))))

  -- `readUnicodeText`
  unfoldable pub read_unicode_text : (List ℕ → String) → List Call × Result String
  read_unicode_text utf16_to_string =
      text_of utf16_to_string
        (read_memory cf_unicodetext (100 * 1024 * 1024) (λ size. os_error windows.last_error))

  -- The loop of `readHDrop` from the path `i` on.
  unfoldable pub read_paths : ℕ → ℕ → ℕ → List String
  read_paths h zero i = []
  read_paths h (suc left) i =
      let rest = read_paths h left (i + 1) in
      if windows.path_length h i == 0
      then rest
      else if ltb 0 (windows.path_copied h i)
      then windows.path_text h i ∷ rest
      else rest

  -- `readHDrop`
  unfoldable pub read_hdrop : List Call × Result (List String)
  unfolding read_paths
  read_hdrop =
      let h = windows.clipboard_data cf_hdrop in
      if h == 0
      then (got cf_hdrop h ∷ [], failed (os_error windows.last_error))
      else (got cf_hdrop h ∷ [], found (read_paths h (windows.drag_count h % 2 ^ 32) 0))

  -- `pickClipboardImageFormat`
  unfoldable pub pick_clipboard_image_format : ℕ
  pick_clipboard_image_format =
      if windows.has_format cf_dib
      then cf_dib
      else if windows.has_format cf_dibv5
      then cf_dibv5
      else 0

  module _ (library : Library) where
    -- The three cases of `readClipboard`, on the content so far.
    unfoldable pub with_files : Content → List Call × Result (List String) → List Call × Reading
    with_files content (calls, failed e) = (calls, (content, some e))
    with_files content (calls, found paths) = (
      calls,
      (
        record content {
          files = paths;
          size_bytes = calculate_files_size paths;
          preview = format_files_preview paths;
        },
        none,
      ),
    )

    unfoldable pub converted : Content → ℕ → Png → Reading
    converted content format png_unsupported = (content, some (unsupported_dib format))
    converted content format png_panics = (content, some panicked)
    converted content format png_failed = (content, some png_error)
    converted content format (png_bytes bytes) = (
      record content {
        image_png = bytes;
        size_bytes = length bytes;
        preview = format_image_preview library bytes;
      },
      none,
    )

    unfoldable pub with_image : Content → ℕ → List Call × Result (List ℕ) → List Call × Reading
    unfolding converted
    with_image content format (calls, failed e) = (calls, (content, some e))
    with_image content format (calls, found bytes) =
        (calls, converted content format (dib_to_png library.png_encode bytes))

    unfoldable pub with_text : Content → List Call × Result String → List Call × Reading
    with_text content (calls, failed e) = (calls, (content, some e))
    with_text content (calls, found s) = (
      calls,
      (
        record content { text = s; size_bytes = len s; preview = format_text_preview library s },
        none,
      ),
    )

    -- What `readClipboard` does while the clipboard is open.
    unfoldable pub read_open : Bool → Content → List Call × Reading
    read_open allow_slow_images content =
        if windows.has_format cf_hdrop
        then with_files (record content { kind = files }) read_hdrop
        else if not (pick_clipboard_image_format == 0)
        then (if not allow_slow_images
            then (
              [],
              (
                record content {
                  kind = image;
                  preview = "Изображение ожидает безопасного захвата";
                },
                none,
              ),
            )
            else with_image (record content { kind = image }) pick_clipboard_image_format
                (read_clipboard_dib_bytes pick_clipboard_image_format))
        else if windows.has_format cf_unicodetext
        then with_text (record content { kind = text }) (read_unicode_text library.utf16_to_string)
        else ([], (record content { preview = "Empty clipboard" }, none))

    -- `readClipboard`, with the identifier and the time of the moment. The picture is converted after
    -- the clipboard is closed, which makes no calls.
    unfoldable pub read_clipboard : Bool → String → ℕ → List Call × Reading
    read_clipboard allow_slow_images id now =
        let content = record zero_content { id = id; timestamp = now } in
        let (calls, ok) = open_with_retry windows.opens in
        let (more, r) = read_open allow_slow_images content in
        if ok
        then (calls ++ (more ++ closed ∷ []), r)
        else (calls, (content, some (os_error windows.last_error)))

    -- `Read` and `ReadForClipboardWatcher`
    unfoldable pub read : String → ℕ → List Call × Reading
    unfolding read_clipboard
    read = read_clipboard true

    unfoldable pub read_for_clipboard_watcher : String → ℕ → List Call × Reading
    unfolding read_clipboard
    read_for_clipboard_watcher = read_clipboard false
