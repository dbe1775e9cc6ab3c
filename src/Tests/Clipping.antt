-- ===== src/Tests/Clipping.antt =====
-- The theorems on platform/windows/clipboard.go, applied to a small picture, texts and answers.
use clip_queue.Prelude.{
  ℕ, ◌/◌, ◌^◌, ◌≡◌, ◌⊎◌, refl, true, false, String, List, [], ◌∷◌, ◌-◌, Option, none, some, arith,
  length, ◌==◌, pos,
}
use clip_queue.Clipboard.Content.{Content, text, zero_content}
use clip_queue.Clipboard.Dib.{Pixel, Header, image_to_dib, row_size, read_header}
use clip_queue.Clipboard.Dib.Decode.{
  decoded, decode_dib, decode_checked, decode_pixels, int32, abs32, pixel_offset, is_supported,
  too_short, is_huge, read_image, is_negative,
}
use clip_queue.Clipboard.Dib.Shape.{IsPixel}
use clip_queue.Clipboard.Dib.Back.{decode_dib-image_to_dib}
use clip_queue.Clipboard.Dib.Inside.{Sized, decode_dib-Sized}
use clip_queue.Clipboard.Access.{Windows, os_error, at_rest, follow, follow_all}
use clip_queue.Clipboard.Access.Opening.{open_with_retry}
use clip_queue.Clipboard.Access.Write.{
  write, unit_bytes, place_prepared, prepare, fill, place, fill_clipboard, set_clipboard_data,
  format_of,
}
use clip_queue.Clipboard.Access.Owned.{Written, write-Written}
use clip_queue.Clipboard.Access.Read.{Library, read_clipboard, read_unicode_text, found}
use clip_queue.Clipboard.Access.Closed.{kind_of, read_clipboard-Closed}
use clip_queue.Clipboard.Access.Back.{read_unicode_text-unit_bytes}

abbrev red : Pixel
red = record { r = 255; g = 0; b = 0; a = 255 }

abbrev blue : Pixel
blue = record { r = 0; g = 0; b = 255; a = 128 }

abbrev two_rows : List (List Pixel)
two_rows = (red ∷ blue ∷ []) ∷ (blue ∷ red ∷ []) ∷ []

red-IsPixel : IsPixel red
red-IsPixel = record {
  r_byte = omega arith;
  g_byte = omega arith;
  b_byte = omega arith;
  a_byte = omega arith;
}

blue-IsPixel : IsPixel blue
blue-IsPixel = record {
  r_byte = omega arith;
  g_byte = omega arith;
  b_byte = omega arith;
  a_byte = omega arith;
}

decode_dib-image_to_dib_example :
    (dib_data : List ℕ) × (image_to_dib 2 two_rows ≡ some dib_data)
    × (decode_dib dib_data ≡ decoded (record { width = 2; height = pos 2; rows = two_rows }))
decode_dib-image_to_dib_example =
    decode_dib-image_to_dib 2 two_rows (omega arith) (omega arith) (omega arith)
      ((refl, (red-IsPixel, (blue-IsPixel, tt))), ((refl, (blue-IsPixel, (red-IsPixel, tt))), tt))

-- A header of 24 bits for a picture of one pixel from the top, and the bytes of its row.
abbrev one_pixel : List ℕ
one_pixel =
    40 ∷ 0 ∷ 0 ∷ 0 ∷ 1 ∷ 0 ∷ 0 ∷ 0 ∷ 255 ∷ 255 ∷ 255 ∷ 255 ∷ 1 ∷ 0 ∷ 24 ∷ 0 ∷ 0 ∷ 0 ∷ 0 ∷ 0 ∷ 4 ∷ 0
    ∷ 0 ∷ 0 ∷ 0 ∷ 0 ∷ 0 ∷ 0 ∷ 0 ∷ 0 ∷ 0 ∷ 0 ∷ 0 ∷ 0 ∷ 0 ∷ 0 ∷ 0 ∷ 0 ∷ 0 ∷ 0 ∷ 7 ∷ 8 ∷ 9 ∷ 0 ∷ []

abbrev one_header : Header
one_header = record {
  bi_size = 40;
  bi_width = 1;
  bi_height = 2 ^ 32 - 1;
  bi_planes = 1;
  bi_bit_count = 24;
  bi_compression = 0;
  bi_size_image = 4;
  bi_x_pels = 0;
  bi_y_pels = 0;
  bi_clr_used = 0;
  bi_clr_important = 0;
}

one_header_read : read_header one_pixel ≡ one_header
unfolding read_header
one_header_read = refl

one_wide : int32 one_header.bi_width ≡ pos 1
unfolding int32
one_wide = refl

one_high : abs32 (int32 one_header.bi_height) ≡ pos 1
unfolding int32 abs32
one_high = refl

one_offset : pixel_offset one_header ≡ 40
unfolding pixel_offset
one_offset = refl

one_row : row_size 1 (24 / 8) ≡ 4
unfolding row_size
one_row = refl

decode_dib-Sized_example : Sized 1 1 (decode_dib one_pixel)
decode_dib-Sized_example =
    decode_dib-Sized one_pixel one_header 1 1 one_header_read one_wide one_high
      (omega (arith, one_offset, one_row)) (omega arith)

one_decoded :
    decode_dib one_pixel
    ≡ decoded (record {
      width = 1;
      height = pos 1;
      rows = (record { r = 9; g = 8; b = 7; a = 255 } ∷ []) ∷ [];
    })
unfolding decode_dib decode_checked decode_pixels int32 read_header is_supported too_short abs32
    pixel_offset row_size is_huge read_image is_negative
one_decoded = refl

-- Windows with one block of memory, which holds "A" and a zero, and a clipboard with a text that
-- opens at the second try.
abbrev desktop : Windows
desktop = record {
  owner = 1;
  opens = λ i. i == 1;
  empties = true;
  allocates = λ n. 5;
  locks = λ h. true;
  sets = λ f h. true;
  sequence = 3;
  last_error = 0;
  has_format = λ f. f == 13;
  clipboard_data = λ f. 5;
  global_size = λ h. 4;
  memory = λ h. 65 ∷ 0 ∷ 0 ∷ 0 ∷ [];
  drag_count = λ h. 0;
  path_length = λ h i. 0;
  path_copied = λ h i. 0;
  path_text = λ h i. "";
}

abbrev utf16 : String → Option (List ℕ)
utf16 s = some (65 ∷ 0 ∷ [])

abbrev png_decode : List ℕ → Option (ℕ × List (List Pixel))
png_decode bytes = none

abbrev letter : Content
letter = record zero_content { kind = text; text = "A" }

abbrev old_board : List (ℕ × List ℕ)
old_board = (1, 66 ∷ 0 ∷ []) ∷ []

write-Written_example :
    Written utf16 png_decode text letter old_board (write desktop utf16 png_decode letter)
write-Written_example = write-Written utf16 png_decode desktop old_board letter

-- The letter is on the clipboard after it.
letter_written :
    follow_all (write desktop utf16 png_decode letter).0 (at_rest old_board)
    ≡ some (at_rest ((13, 65 ∷ 0 ∷ 0 ∷ 0 ∷ []) ∷ []))
unfolding write follow_all place_prepared prepare fill follow at_rest unit_bytes place
    open_with_retry fill_clipboard set_clipboard_data format_of
letter_written = refl

abbrev library : Library
library = record {
  utf16_to_string = λ units. "A";
  clean_text = λ s. s;
  runes = λ s. 65 ∷ [];
  of_runes = λ rs. "A";
  png_encode = λ p. none;
  png_config = λ bytes. none;
  size_text = λ w h. "";
}

read_clipboard-Closed_example :
    let r = read_clipboard desktop library true "1" 7 in
    (follow_all r.0 (at_rest old_board) ≡ some (at_rest old_board))
    × ((((open_with_retry desktop.opens).1 ≡ true) × (r.1.0.kind ≡ kind_of desktop old_board))
        ⊎ (((open_with_retry desktop.opens).1 ≡ false) × (r.1.1 ≡ some (os_error 0))))
read_clipboard-Closed_example = read_clipboard-Closed desktop old_board library true "1" 7

letter_bytes : 65 ∷ 0 ∷ 0 ∷ 0 ∷ [] ≡ unit_bytes (65 ∷ 0 ∷ [])
unfolding unit_bytes
letter_bytes = refl

letter_size : 4 ≡ length (unit_bytes (65 ∷ 0 ∷ []))
unfolding unit_bytes
letter_size = refl

read_unicode_text-unit_bytes_example :
    (read_unicode_text desktop library.utf16_to_string).1
    ≡ found (library.utf16_to_string (65 ∷ []))
read_unicode_text-unit_bytes_example =
    read_unicode_text-unit_bytes desktop library.utf16_to_string (65 ∷ [])
      ((omega arith, omega arith), tt) refl refl letter_bytes letter_size
      (omega (arith, letter_size))
