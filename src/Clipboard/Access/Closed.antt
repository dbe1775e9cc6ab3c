-- ===== src/Clipboard/Access/Closed.antt =====
-- Reading leaves the clipboard as it was: closed, with no memory locked and its content unchanged.
use clip_queue.Prelude.{
  ℕ, ◌*◌, Bool, true, false, not, ◌||◌, String, List, [], ◌∷◌, none, some, if◌then◌else◌, ◌==◌, ltb,
  ◌≡◌, refl, ap, ◌∙◌, ◌⊎◌, Bool-cases, inl, inr, arith,
}
use clip_queue.Clipboard.Content.{Content, ContentType, empty, text, files, image, zero_content}
use clip_queue.Clipboard.Dib.Decode.{Png, png_unsupported, png_panics, png_failed, png_bytes}
use clip_queue.Clipboard.Access.{
  Call, closed, Windows, ClipboardError, os_error, bad_size, at_rest, follow, follow_all,
  follow_all-append, go_on, is_free,
}
use clip_queue.Clipboard.Access.Opening.{open_with_retry}
use clip_queue.Clipboard.Access.Owned.{open_with_retry-go_on, not_opened, open_desk}
use clip_queue.Clipboard.Access.Write.{cf_unicodetext, cf_hdrop, cf_dib}
use clip_queue.Clipboard.Access.Read.{
  Library, cf_dibv5, Result, found, failed, read_memory, read_clipboard_dib_bytes, text_of,
  read_unicode_text, read_hdrop, pick_clipboard_image_format, Reading, converted, with_files,
  with_image, with_text, read_open, read_clipboard,
}

module _ (windows : Windows) (board : List (ℕ × List ℕ)) where
  -- Calls that leave the open clipboard as they find it.
  abbrev Quiet : List Call → Type 0
  Quiet calls = follow_all calls (open_desk windows board) ≡ some (open_desk windows board)

  read_memory-Quiet :
      (format limit : ℕ) (wrong_size : ℕ → ClipboardError)
      → Quiet (read_memory windows format limit wrong_size).0
  unfolding read_memory follow_all follow is_free
  read_memory-Quiet format limit wrong_size =
      let h = windows.clipboard_data format in
      let size = windows.global_size h in
      elim (Bool-cases (h == 0)) [
        | inl e ↦ rw e refl
        | inr e ↦ elim (Bool-cases (windows.locks h)) [
          | inr bad ↦ rw (e, bad) refl
          | inl fine ↦ elim (Bool-cases ((size == 0) || ltb limit size)) [
            | inl wrong ↦ rw (e, fine, wrong) (ground arith)
            | inr right ↦ rw (e, fine, right) (ground arith)
          ]
        ]
      ]

  read_hdrop-Quiet : Quiet (read_hdrop windows).0
  unfolding read_hdrop follow_all follow
  read_hdrop-Quiet = elim (Bool-cases (windows.clipboard_data cf_hdrop == 0)) [
    | inl e ↦ rw e refl
    | inr e ↦ rw e refl
  ]

  -- The calls of a reading are quiet and its content has the type.
  abbrev Sound : ContentType → List Call × Reading → Type 0
  Sound kind r = Quiet r.0 × (r.1.0.kind ≡ kind)

  no_calls : Quiet []
  unfolding follow_all
  no_calls = refl

  -- The type of the first format that is there: files, then an image, then text.
  unfoldable pub kind_of : ContentType
  kind_of =
      if windows.has_format cf_hdrop
      then files
      else if windows.has_format cf_dib || windows.has_format cf_dibv5
      then image
      else if windows.has_format cf_unicodetext
      then text
      else empty

  module _ (library : Library) where
    with_files-Sound :
        (content : Content) (r : List Call × Result (List String))
        → Quiet r.0
        → Sound content.kind (with_files windows library content r)
    unfolding with_files
    with_files-Sound content (calls, failed e) h = (h, refl)
    with_files-Sound content (calls, found paths) h = (h, refl)

    kind-converted :
        (content : Content) (format : ℕ) (png : Png)
        → (converted windows library content format png).0.kind ≡ content.kind
    unfolding converted
    kind-converted content format png_unsupported = refl
    kind-converted content format png_panics = refl
    kind-converted content format png_failed = refl
    kind-converted content format (png_bytes bytes) = refl

    with_image-Sound :
        (content : Content) (format : ℕ) (r : List Call × Result (List ℕ))
        → Quiet r.0
        → Sound content.kind (with_image windows library content format r)
    unfolding with_image
    with_image-Sound content format (calls, failed e) h = (h, refl)
    with_image-Sound content format (calls, found bytes) h = (h, kind-converted content format _)

    with_text-Sound :
        (content : Content) (r : List Call × Result String)
        → Quiet r.0
        → Sound content.kind (with_text windows library content r)
    unfolding with_text
    with_text-Sound content (calls, failed e) h = (h, refl)
    with_text-Sound content (calls, found s) h = (h, refl)

    text_of-Quiet :
        (r : List Call × Result (List ℕ))
        → Quiet r.0
        → Quiet (text_of windows library.utf16_to_string r).0
    unfolding text_of
    text_of-Quiet (calls, failed e) h = h
    text_of-Quiet (calls, found bytes) h = h

    read_unicode_text-Quiet : Quiet (read_unicode_text windows library.utf16_to_string).0
    unfolding read_unicode_text
    read_unicode_text-Quiet = text_of-Quiet _ (read_memory-Quiet _ _ _)

    read_open-Sound :
        (allow_slow_images : Bool) (content : Content)
        → content.kind ≡ empty
        → Sound kind_of (read_open windows library allow_slow_images content)
    unfolding read_open kind_of pick_clipboard_image_format read_clipboard_dib_bytes
    read_open-Sound allow content e = elim (Bool-cases (windows.has_format cf_hdrop)) [
      | inl a ↦ rw a (with_files-Sound _ _ read_hdrop-Quiet)
      | inr a ↦ elim (Bool-cases (windows.has_format cf_dib)) [
        | inl b ↦ rw (a, b) (image_Sound allow content cf_dib)
        | inr b ↦ elim (Bool-cases (windows.has_format cf_dibv5)) [
          | inl c ↦ rw (a, b, c) (image_Sound allow content cf_dibv5)
          | inr c ↦ elim (Bool-cases (windows.has_format cf_unicodetext)) [
            | inl d ↦ rw (a, b, c, d) (with_text-Sound _ _ read_unicode_text-Quiet)
            | inr d ↦ rw (a, b, c, d) (no_calls, e)
          ]
        ]
      ]
    ]
      where
        image_Sound :
            (allow : Bool) (content : Content) (format : ℕ)
            → Sound image (
                if not allow
                then (
                  [],
                  (
                    record content {
                      kind = image;
                      preview = "Изображение ожидает безопасного захвата";
                    },
                    none,
                  ),
                )
                else with_image windows library
                    (record content { kind = image })
                    format
                    (read_clipboard_dib_bytes windows format))
        image_Sound false content format = (no_calls, refl)
        image_Sound true content format =
            with_image-Sound (record content { kind = image }) format
              (read_memory windows format (200 * 1024 * 1024) bad_size)
              (read_memory-Quiet format (200 * 1024 * 1024) bad_size)

    closed_follow : follow_all (closed ∷ []) (open_desk windows board) ≡ some (at_rest board)
    unfolding follow_all follow is_free at_rest
    closed_follow = refl

    -- Whatever Windows answers: the clipboard is closed again if it was opened, none of its memory
    -- stays locked, and it holds what it held. If it was opened, the content has the type of the
    -- first format that is there: files, then an image, then text; otherwise there is an error.
    pub read_clipboard-Closed :
        (allow_slow_images : Bool) (id : String) (now : ℕ)
        → let r = read_clipboard windows library allow_slow_images id now in
          (follow_all r.0 (at_rest board) ≡ some (at_rest board))
          × ((((open_with_retry windows.opens).1 ≡ true) × (r.1.0.kind ≡ kind_of))
              ⊎ (((open_with_retry windows.opens).1 ≡ false)
                  × (r.1.1 ≡ some (os_error windows.last_error))))
    unfolding read_clipboard at_rest zero_content
    read_clipboard-Closed allow id now =
        let content = record zero_content { id = id; timestamp = now } in
        let (quiet, kind) = read_open-Sound allow content refl in
        elim (Bool-cases (open_with_retry windows.opens).1) [
          | inr bad ↦ rw bad (not_opened windows board bad, inr (refl, refl))
          | inl ok ↦ rw ok (
            open_with_retry-go_on windows board none _ true ok
                ∙ follow_all-append (read_open windows library allow content).0 (closed ∷ []) _
                ∙ ap (λ d. go_on d (closed ∷ [])) quiet
                ∙ closed_follow,
            inl (refl, kind),
          )
        ]
