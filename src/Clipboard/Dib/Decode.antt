-- ===== src/Clipboard/Dib/Decode.antt =====
-- platform/windows/clipboard.go: dibToPNG up to the picture it gives to `png.Encode`. An `int` has
-- 64 bits, and `image.NewRGBA` panics when the bytes of the picture do not fit in it.
use clip_queue.Prelude.{
  ℕ, zero, suc, ◌+◌, ◌-◌, ◌*◌, ◌/◌, ◌%◌, ◌^◌, Bool, true, false, not, ◌&&◌, ◌||◌, List, [], ◌∷◌,
  Option, none, some, if◌then◌else◌, ◌==◌, ltb, leb, length, drop, get_elem?, ℤ, pos, negsuc,
}
use clip_queue.Clipboard.Dib.{
  Pixel, Picture, Header, and_then, bi_rgb, bi_bitfields, row_size, read_header,
}

pub data Decoded : Type 0 where
  unsupported : Decoded
  panics : Decoded
  decoded : Picture → Decoded

-- `int32(n)` of a number of 32 bits.
unfoldable pub int32 : ℕ → ℤ
int32 n = if ltb n (2 ^ 31) then pos n else negsuc (2 ^ 32 - 1 - n)

-- `if height < 0 { height = -height }`; the least number of 32 bits stays as it is.
unfoldable pub abs32 : ℤ → ℤ
abs32 (pos n) = pos n
abs32 (negsuc n) = if n == 2 ^ 31 - 1 then negsuc n else pos (suc n)

-- `pixelOffset + int(h)*rowSize` in 64 bits.
unfoldable pub expected_size : ℕ → ℤ → ℕ → ℕ
expected_size offset (pos n) size = (offset + n * size) % 2 ^ 64
expected_size offset (negsuc n) size = (offset + (2 ^ 65 - suc n * size)) % 2 ^ 64

-- `len(dibData) < expectedSize`, whose right side is negative from 2 ^ 63 on.
unfoldable pub too_short : ℕ → ℕ → ℤ → ℕ → Bool
unfolding expected_size
too_short len offset height size =
    let expected = expected_size offset height size in ltb expected (2 ^ 63) && ltb len expected

-- `image.NewRGBA` of the rectangle panics.
unfoldable pub is_huge : ℕ → ℤ → Bool
is_huge width (pos n) = leb (2 ^ 63) (4 * width * n)
is_huge width (negsuc n) = leb (2 ^ 63) (4 * width * suc n)

-- The depth and the compression are among those that are read.
unfoldable pub is_supported : Header → Bool
is_supported h = not (
    ((not (h.bi_bit_count == 24)) && not (h.bi_bit_count == 32))
    || ((h.bi_bit_count == 24) && not (h.bi_compression == bi_rgb))
    || ((h.bi_bit_count == 32)
        && (not (h.bi_compression == bi_rgb) && not (h.bi_compression == bi_bitfields))))

-- The number of the colours in the table.
unfoldable pub colors_count : Header → ℕ
colors_count h =
    if ltb 0 h.bi_clr_used && ltb h.bi_clr_used (2 ^ h.bi_bit_count % 2 ^ 32)
    then h.bi_clr_used
    else 2 ^ h.bi_bit_count

unfoldable pub pixel_offset : Header → ℕ
unfolding colors_count
pixel_offset h =
    h.bi_size
    + (if ltb 0 h.bi_clr_used || (leb h.bi_bit_count 8 && (h.bi_clr_used == 0))
        then colors_count h * 4
        else 0)
    + (if h.bi_compression == bi_bitfields then 12 else 0)

-- The pixel at an index: four bytes, or three and opaque.
unfoldable pub read_pixel : List ℕ → ℕ → ℕ → Option Pixel
read_pixel pixel_data bit_count index = and_then (get_elem? pixel_data index) (λ blue.
    and_then (get_elem? pixel_data (index + 1)) (λ green.
      and_then (get_elem? pixel_data (index + 2)) (λ red.
        if bit_count == 32
        then and_then (get_elem? pixel_data (index + 3))
            (λ alpha. some (record { r = red; g = green; b = blue; a = alpha }))
        else some (record { r = red; g = green; b = blue; a = 255 }))))

-- The inner loop from `x` on; the last argument counts the pixels that are left.
unfoldable pub read_row : List ℕ → ℕ → ℕ → ℕ → ℕ → Option (List Pixel)
unfolding read_pixel
read_row pixel_data bit_count start x zero = some []
read_row pixel_data bit_count start x (suc left) =
    and_then (read_pixel pixel_data bit_count (start + x * (bit_count / 8)))
      (λ p. and_then (read_row pixel_data bit_count start (x + 1) left) (λ ps. some (p ∷ ps)))

-- `rowStart` of the row `y`.
unfoldable pub row_start : Bool → ℕ → ℕ → ℕ → ℕ
row_start is_top_down size height y = if is_top_down then y * size else (height - 1 - y) * size

-- The outer loop; the last argument counts the rows that are left, so `y` is the height less it.
unfoldable pub read_rows : List ℕ → Bool → ℕ → ℕ → ℕ → ℕ → ℕ → Option (List (List Pixel))
unfolding read_row row_start
read_rows pixel_data is_top_down bit_count size width height zero = some []
read_rows pixel_data is_top_down bit_count size width height (suc left) =
    and_then
      (read_row pixel_data bit_count (row_start is_top_down size height (height - suc left)) 0
        width)
      (λ row.
        and_then (read_rows pixel_data is_top_down bit_count size width height left)
          (λ rows. some (row ∷ rows)))

-- The loop `for y := 0; y < int(height); y++`, which has no turn when the height is negative.
unfoldable pub read_image : List ℕ → Bool → ℕ → ℕ → ℕ → ℤ → Option (List (List Pixel))
unfolding read_rows
read_image pixel_data is_top_down bit_count size width (pos n) =
    read_rows pixel_data is_top_down bit_count size width n n
read_image pixel_data is_top_down bit_count size width (negsuc n) = some []

-- From the check of the size to the picture. `height` is the absolute value in 32 bits.
unfoldable pub decode_pixels : List ℕ → Header → Bool → ℕ → ℤ → Decoded
decode_pixels dib_data h is_top_down width height =
    let offset = pixel_offset h in
    let size = row_size width (h.bi_bit_count / 8) in
    if too_short (length dib_data) offset height size
    then unsupported
    else if is_huge width height || ltb (length dib_data) offset
    then panics
    else elim (read_image (drop offset dib_data) is_top_down h.bi_bit_count size width height) [
      | none ↦ panics
      | some rows ↦ decoded (record { width = width; height = height; rows = rows })
    ]

unfoldable pub is_negative : ℤ → Bool
is_negative (pos n) = false
is_negative (negsuc n) = true

-- The checks of the header, with its width and height as signed numbers.
unfoldable pub decode_checked : List ℕ → Header → ℤ → ℤ → Decoded
decode_checked dib_data h (negsuc n) height = unsupported
decode_checked dib_data h (pos zero) height = unsupported
decode_checked dib_data h (pos (suc w)) (pos zero) = unsupported
decode_checked dib_data h (pos (suc w)) height =
    if ltb (length dib_data) h.bi_size || not (is_supported h)
    then unsupported
    else decode_pixels dib_data h (is_negative height) (suc w) (abs32 height)

unfoldable pub decode_dib : List ℕ → Decoded
decode_dib dib_data =
    if ltb (length dib_data) 40
    then unsupported
    else let h = read_header dib_data in
      decode_checked dib_data h (int32 h.bi_width) (int32 h.bi_height)

-- `dibToPNG`; `encode` is `png.Encode`, which may fail.
pub data Png : Type 0 where
  png_unsupported : Png
  png_panics : Png
  png_failed : Png
  png_bytes : List ℕ → Png

unfoldable pub dib_to_png : (Picture → Option (List ℕ)) → List ℕ → Png
unfolding decode_dib
dib_to_png encode dib_data = elim (decode_dib dib_data) [
  | unsupported ↦ png_unsupported
  | panics ↦ png_panics
  | decoded picture ↦ elim (encode picture) [ none ↦ png_failed | some bytes ↦ png_bytes bytes ]
]
