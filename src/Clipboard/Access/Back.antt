-- ===== src/Clipboard/Access/Back.antt =====
-- The text that Write puts into the clipboard is the text that Read takes out.
use clip_queue.Prelude.{
  ℕ, ◌+◌, ◌*◌, ◌/◌, ◌%◌, ◌<◌, ◌≤◌, true, false, ◌||◌, List, [], ◌∷◌, ◌++◌, String, ◌==◌, ltb,
  length, take, ◌≡◌, refl, ap, ◌∙◌, All, arith,
}
use clip_queue.Clipboard.Access.{Call, Windows, ClipboardError, os_error}
use clip_queue.Clipboard.Access.Write.{cf_unicodetext, unit_bytes}
use clip_queue.Clipboard.Access.Read.{
  Result, found, failed, read_memory, text_of, read_unicode_text, units_of, before_zero,
}

-- A unit that is not the end of a text.
abbrev pub IsUnit : ℕ → Type 0
IsUnit u = (0 < u) × (u < 65536)

before_zero-unit_bytes :
    (units : List ℕ)
    → All IsUnit units
    → before_zero (units_of (unit_bytes (units ++ 0 ∷ []))) ≡ units
unfolding before_zero units_of unit_bytes
before_zero-unit_bytes [] h = refl
before_zero-unit_bytes (u ∷ units) ((positive, small), hs) =
    let same : u % 256 + 256 * (u / 256 % 256) ≡ u = omega arith in
    let nonzero : (u == 0) ≡ false = ground arith in
    rw (same, nonzero) (ap (◌∷◌ u) (before_zero-unit_bytes units hs))

ended : (units : List ℕ) → 0 < length (unit_bytes (units ++ 0 ∷ []))
unfolding unit_bytes
ended [] = omega arith
ended (u ∷ units) = omega arith

take-length : {A : Type 0} (xs : List A) → take (length xs) xs ≡ xs
take-length [] = refl
take-length (x ∷ xs) = ap (◌∷◌ x) (take-length xs)

module _ (windows : Windows) where
  text_of-found :
      (utf16_to_string : List ℕ → String) (r : List Call × Result (List ℕ)) (bytes : List ℕ)
      → r.1 ≡ found bytes
      → (text_of windows utf16_to_string r).1
        ≡ found (utf16_to_string (before_zero (units_of bytes)))
  unfolding text_of
  text_of-found utf16_to_string (calls, failed bad) bytes e = cc
  text_of-found utf16_to_string (calls, found some') bytes e = cc

  read_memory-found :
      (format limit : ℕ) (wrong_size : ℕ → ClipboardError) (bytes : List ℕ)
      → let h = windows.clipboard_data format in
        (h == 0) ≡ false
        → windows.locks h ≡ true
        → windows.memory h ≡ bytes
        → windows.global_size h ≡ length bytes
        → 0 < length bytes
        → length bytes ≤ limit
        → (read_memory windows format limit wrong_size).1 ≡ found bytes
  unfolding read_memory
  read_memory-found format limit wrong_size bytes handle locks stored size some' small =
      let fits : (windows.global_size (windows.clipboard_data format) == 0)
            || ltb limit (windows.global_size (windows.clipboard_data format))
          ≡ false =
        ground arith in
      rw (handle, locks, fits)
        (ap found (
          ap (λ n. take n (windows.memory (windows.clipboard_data format))) size
          ∙ ap (take (length bytes)) stored
          ∙ take-length bytes))

  -- If the clipboard gives out the bytes of the units and the zero that ends them, as Write has stored
  -- them, at most a hundred megabytes, and lets them be locked, then the text is that of the units.
  pub read_unicode_text-unit_bytes :
      (utf16_to_string : List ℕ → String) (units : List ℕ)
      → All IsUnit units
      → (windows.clipboard_data cf_unicodetext == 0) ≡ false
      → windows.locks (windows.clipboard_data cf_unicodetext) ≡ true
      → windows.memory (windows.clipboard_data cf_unicodetext) ≡ unit_bytes (units ++ 0 ∷ [])
      → windows.global_size (windows.clipboard_data cf_unicodetext)
        ≡ length (unit_bytes (units ++ 0 ∷ []))
      → length (unit_bytes (units ++ 0 ∷ [])) ≤ 100 * 1024 * 1024
      → (read_unicode_text windows utf16_to_string).1 ≡ found (utf16_to_string units)
  unfolding read_unicode_text
  read_unicode_text-unit_bytes utf16_to_string units good handle locks stored size small =
      text_of-found utf16_to_string _ (unit_bytes (units ++ 0 ∷ [])) (
        read_memory-found cf_unicodetext (100 * 1024 * 1024) (λ n. os_error windows.last_error)
          (unit_bytes (units ++ 0 ∷ [])) handle locks stored size (ended units) small)
      ∙ ap (λ us. found (utf16_to_string us)) (before_zero-unit_bytes units good)
