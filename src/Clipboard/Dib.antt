-- ===== src/Clipboard/Dib.antt =====
-- platform/windows/clipboard.go: imageToDIB and dibToPNG. A picture is what `image.RGBA` holds, its
-- rows from the top, and `none` and `panics` stand for an index out of range. The numbers of the
-- header are kept as they are stored; `int32` reads the signed ones. PNG is the standard library's.
pub mod Decode
pub mod Shape
pub mod Back
pub mod Inside
use clip_queue.Prelude.{
  ℕ, zero, suc, ◌+◌, ◌-◌, ◌*◌, ◌/◌, ◌%◌, ◌^◌, Bool, true, false, not, ◌&&◌, ◌||◌, List, [], ◌∷◌,
  ◌++◌, Option, none, some, if◌then◌else◌, ◌==◌, ltb, leb, length, drop, set, get_elem?, replicate,
  ℤ, pos, negsuc,
}

pub record Pixel : Type 0 where
  pub r : ℕ
  pub g : ℕ
  pub b : ℕ
  pub a : ℕ

-- `height` is the one given to `image.Rect`, and `rows` are the rows that were set.
pub record Picture : Type 0 where
  pub width : ℕ
  pub height : ℤ
  pub rows : List (List Pixel)

pub record Header : Type 0 where
  pub bi_size : ℕ
  pub bi_width : ℕ
  pub bi_height : ℕ
  pub bi_planes : ℕ
  pub bi_bit_count : ℕ
  pub bi_compression : ℕ
  pub bi_size_image : ℕ
  pub bi_x_pels : ℕ
  pub bi_y_pels : ℕ
  pub bi_clr_used : ℕ
  pub bi_clr_important : ℕ

abbrev pub bi_rgb : ℕ
bi_rgb = 0

abbrev pub bi_bitfields : ℕ
bi_bitfields = 3

-- The bytes of a number of two and of four bytes, the lowest first.
unfoldable pub le16 : ℕ → List ℕ
le16 n = n % 256 ∷ n / 256 % 256 ∷ []

unfoldable pub le32 : ℕ → List ℕ
le32 n = n % 256 ∷ n / 256 % 256 ∷ n / 65536 % 256 ∷ n / 16777216 % 256 ∷ []

unfoldable pub header_bytes : Header → List ℕ
unfolding le16 le32
header_bytes h =
    le32 h.bi_size
    ++ (le32 h.bi_width
        ++ (le32 h.bi_height
            ++ (le16 h.bi_planes
                ++ (le16 h.bi_bit_count
                    ++ (le32 h.bi_compression
                        ++ (le32 h.bi_size_image
                            ++ (le32 h.bi_x_pels
                                ++ (le32 h.bi_y_pels
                                    ++ (le32 h.bi_clr_used ++ le32 h.bi_clr_important)))))))))

-- `((width*bpp + 3) / 4) * 4`
unfoldable pub row_size : ℕ → ℕ → ℕ
row_size width bpp = ((width * bpp + 3) / 4) * 4

-- The header that `imageToDIB` makes; `int32` and `uint32` drop the high bits.
unfoldable pub image_header : ℕ → ℕ → Header
unfolding row_size
image_header width height = record {
  bi_size = 40;
  bi_width = width % 2 ^ 32;
  bi_height = height % 2 ^ 32;
  bi_planes = 1;
  bi_bit_count = 32;
  bi_compression = bi_rgb;
  bi_size_image = (row_size width 4 * height) % 2 ^ 32;
  bi_x_pels = 2835;
  bi_y_pels = 2835;
  bi_clr_used = 0;
  bi_clr_important = 0;
}

-- `buffer[index] = byte(c >> 8)`, where `RGBA` gives 257 times the channel.
unfoldable pub put : ℕ → ℕ → List ℕ → Option (List ℕ)
put index c buffer =
    if ltb index (length buffer) then some (set buffer index (c * 257 / 256 % 256)) else none

abbrev pub and_then : {A B : Type 0} → Option A → (A → Option B) → Option B
and_then none f = none
and_then (some a) f = f a

-- One turn of the inner loop.
unfoldable pub write_pixel : ℕ → Pixel → List ℕ → Option (List ℕ)
unfolding put
write_pixel index p buffer = and_then (put index p.b buffer) (λ b1.
    and_then (put (index + 1) p.g b1)
      (λ b2. and_then (put (index + 2) p.r b2) (λ b3. put (index + 3) p.a b3)))

-- The inner loop from `x` on; `start` is `pixelOffset + bufY*rowSize`.
unfoldable pub write_row : ℕ → ℕ → List Pixel → List ℕ → Option (List ℕ)
write_row start x [] buffer = some buffer
write_row start x (p ∷ pixels) buffer =
    and_then (write_pixel (start + x * 4) p buffer) (write_row start (x + 1) pixels)

-- The outer loop over the rows from `y` on: the rows below are `height - 1 - y` in number.
unfoldable pub write_rows : ℕ → ℕ → List (List Pixel) → List ℕ → Option (List ℕ)
unfolding write_row
write_rows offset size [] buffer = some buffer
write_rows offset size (pixels ∷ rows) buffer =
    and_then (write_row (offset + length rows * size) 0 pixels buffer) (write_rows offset size rows)

-- `imageToDIB` of the picture with the rows, each of the width; its bounds start at zero, as those of
-- a decoded PNG do. The header fills the first forty bytes of the buffer.
unfoldable pub image_to_dib : ℕ → List (List Pixel) → Option (List ℕ)
unfolding row_size write_rows header_bytes
image_to_dib width rows =
    let h = image_header width (length rows) in
    write_rows 40 (row_size width 4) rows (header_bytes h ++ replicate h.bi_size_image 0)

-- `data[i]`, and the numbers that stand at an index of the header.
unfoldable pub byte_at : List ℕ → ℕ → ℕ
byte_at data' i = elim (get_elem? data' i) [ none ↦ 0 | some b ↦ b ]

unfoldable pub uint16_at : List ℕ → ℕ → ℕ
unfolding byte_at
uint16_at data' i = byte_at data' i + 256 * byte_at data' (i + 1)

unfoldable pub uint32_at : List ℕ → ℕ → ℕ
unfolding byte_at
uint32_at data' i =
    byte_at data' i
    + 256 * byte_at data' (i + 1)
    + 65536 * byte_at data' (i + 2)
    + 16777216 * byte_at data' (i + 3)

unfoldable pub read_header : List ℕ → Header
unfolding uint16_at uint32_at
read_header data' = record {
  bi_size = uint32_at data' 0;
  bi_width = uint32_at data' 4;
  bi_height = uint32_at data' 8;
  bi_planes = uint16_at data' 12;
  bi_bit_count = uint16_at data' 14;
  bi_compression = uint32_at data' 16;
  bi_size_image = uint32_at data' 20;
  bi_x_pels = uint32_at data' 24;
  bi_y_pels = uint32_at data' 28;
  bi_clr_used = uint32_at data' 32;
  bi_clr_important = uint32_at data' 36;
}
