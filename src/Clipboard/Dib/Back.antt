-- ===== src/Clipboard/Dib/Back.antt =====
-- A picture that imageToDIB has written is what dibToPNG reads.
use clip_queue.Prelude.{
  ℕ, zero, suc, ◌+◌, ◌-◌, ◌*◌, ◌/◌, ◌%◌, ◌^◌, ◌<◌, ◌≤◌, ◌≡◌, refl, sym, ap, ◌∙◌, true, false, List,
  [], ◌∷◌, ◌++◌, some, ltb, length, drop, get_elem?, append_assoc, append-nil, length-append, All,
  arith, pos,
}
use clip_queue.Clipboard.Dib.{
  Pixel, Header, row_size, header_bytes, image_header, image_to_dib, le16, le32, read_header,
  uint32_at, uint16_at, byte_at,
}
use clip_queue.Clipboard.Dib.Decode.{
  decoded, int32, abs32, too_short, expected_size, is_huge, is_supported, pixel_offset, read_pixel,
  read_row, row_start, read_rows, read_image, decode_pixels, decode_checked, decode_dib,
  is_negative,
}
use clip_queue.Clipboard.Dib.Shape.{
  IsRow, row_bytes, body, length-body, get-append, image_to_dib_lem, row_size_lem, forty_bytes,
}

le32_value :
    (n : ℕ)
    → n < 2 ^ 32
    → n % 256 + 256 * (n / 256 % 256) + 65536 * (n / 65536 % 256) + 16777216 * (n / 16777216 % 256)
      ≡ n
le32_value n h = omega arith

read_header-bytes :
    (width height : ℕ) (rest : List ℕ)
    → read_header (header_bytes (image_header width height) ++ rest) ≡ image_header width height
unfolding read_header header_bytes image_header le16 le32 uint32_at uint16_at byte_at
read_header-bytes width height rest =
    rw
      (
        le32_value (width % 2 ^ 32) (omega arith),
        le32_value (height % 2 ^ 32) (omega arith),
        le32_value ((row_size width 4 * height) % 2 ^ 32) (omega arith),
      )
      refl

read_pixel-append :
    (pre rest : List ℕ) (p : Pixel) (i : ℕ)
    → i ≡ length pre
    → read_pixel (pre ++ p.b ∷ p.g ∷ p.r ∷ p.a ∷ rest) 32 i ≡ some p
unfolding read_pixel
read_pixel-append pre rest p i e =
    let t = p.b ∷ p.g ∷ p.r ∷ p.a ∷ rest in
    let e0 : i ≡ length pre + 0 = omega arith in
    let e1 : i + 1 ≡ length pre + 1 = omega arith in
    let e2 : i + 2 ≡ length pre + 2 = omega arith in
    let e3 : i + 3 ≡ length pre + 3 = omega arith in
    rw
      (
        ap (get_elem? (pre ++ t)) e0 ∙ get-append pre t 0,
        ap (get_elem? (pre ++ t)) e1 ∙ get-append pre t 1,
        ap (get_elem? (pre ++ t)) e2 ∙ get-append pre t 2,
        ap (get_elem? (pre ++ t)) e3 ∙ get-append pre t 3,
      )
      refl

read_row-append :
    (pixels : List Pixel) (pre rest : List ℕ) (start x left : ℕ)
    → start + x * 4 ≡ length pre
    → length pixels ≡ left
    → read_row (pre ++ (row_bytes pixels ++ rest)) 32 start x left ≡ some pixels
unfolding read_row row_bytes
read_row-append [] pre rest start x zero e n = refl
read_row-append [] pre rest start x (suc left) e n = absurd (omega arith)
read_row-append (p ∷ pixels) pre rest start x zero e n = absurd (omega arith)
read_row-append (p ∷ pixels) pre rest start x (suc left) e n =
    let four = p.b ∷ p.g ∷ p.r ∷ p.a ∷ [] in
    let grown : start + (x + 1) * 4 ≡ length (pre ++ four) =
      omega (arith, length-append pre four) in
    let shifted : pre ++ (row_bytes (p ∷ pixels) ++ rest)
        ≡ (pre ++ four) ++ (row_bytes pixels ++ rest) =
      sym (append_assoc pre four (row_bytes pixels ++ rest)) in
    rw
      (
        read_pixel-append pre (row_bytes pixels ++ rest) p (start + x * 4) e,
        ap (λ t. read_row t 32 start (x + 1) left) shifted
            ∙ read_row-append pixels (pre ++ four) rest start (x + 1) left grown (omega arith),
      )
      refl

read_rows-zero :
    (pixel_data : List ℕ) (size width height : ℕ)
    → read_rows pixel_data false 32 size width height 0 ≡ some []
unfolding read_rows
read_rows-zero pixel_data size width height = refl

read_rows-suc :
    (pixel_data : List ℕ) (size width height left : ℕ) (row : List Pixel) (rows : List (List Pixel))
    → read_row pixel_data 32 (row_start false size height (height - suc left)) 0 width ≡ some row
    → read_rows pixel_data false 32 size width height left ≡ some rows
    → read_rows pixel_data false 32 size width height (suc left) ≡ some (row ∷ rows)
unfolding read_rows
read_rows-suc pixel_data size width height left row rows e es = rw (e, es) refl

row_start_below :
    (size height left : ℕ)
    → suc left ≤ height
    → row_start false size height (height - suc left) ≡ left * size
unfolding row_start
row_start_below size height left h =
    let below : height - 1 - (height - suc left) ≡ left = omega arith in ap (λ n. n * size) below

read_rows-append :
    (width height : ℕ) (rows : List (List Pixel)) (rest : List ℕ)
    → All (IsRow width) rows
    → length rows ≤ height
    → read_rows (body rows ++ rest) false 32 (width * 4) width height (length rows) ≡ some rows
unfolding body
read_rows-append width height [] rest h le = read_rows-zero rest (width * 4) width height
read_rows-append width height (row ∷ rows) rest ((er, hr), hs) le =
    let start : row_start false (width * 4) height (height - suc (length rows)) + 0 * 4
        ≡ length (body rows) =
      omega (
        arith,
        row_start_below (width * 4) height (length rows) (omega arith),
        length-body width rows hs,
      ) in
    ap (λ t. read_rows t false 32 (width * 4) width height (suc (length rows)))
      (append_assoc (body rows) (row_bytes row) rest)
    ∙ read_rows-suc (body rows ++ (row_bytes row ++ rest)) (width * 4) width height (length rows)
        row rows (read_row-append row (body rows) rest _ 0 width start er)
        (read_rows-append width height rows (row_bytes row ++ rest) hs (omega arith))

drop-append : (pre rest : List ℕ) (n : ℕ) → n ≡ length pre → drop n (pre ++ rest) ≡ rest
drop-append [] rest n e = ap (λ k. drop k rest) e
drop-append (x ∷ pre) rest n e =
    ap (λ k. drop k (x ∷ (pre ++ rest))) e ∙ drop-append pre rest (length pre) refl

int32_small : (n : ℕ) → n < 2 ^ 31 → int32 (n % 2 ^ 32) ≡ pos n
unfolding int32
int32_small n h =
    let same : n % 2 ^ 32 ≡ n = omega arith in
    let small : ltb (n % 2 ^ 32) (2 ^ 31) ≡ true = ground arith in rw small (ap pos same)

decode_checked_positive :
    (dib_data : List ℕ) (h : Header) (width height : ℕ)
    → 0 < width
    → 0 < height
    → (ltb (length dib_data) h.bi_size ≡ false)
    → is_supported h ≡ true
    → decode_checked dib_data h (pos width) (pos height)
      ≡ decode_pixels dib_data h false width (pos height)
unfolding decode_checked abs32 is_negative
decode_checked_positive dib_data h zero height w n long fine = absurd (omega arith)
decode_checked_positive dib_data h (suc width) zero w n long fine = absurd (omega arith)
decode_checked_positive dib_data h (suc width) (suc height) w n long fine = rw (long, fine) refl

decode_pixels-read_rows :
    (dib_data : List ℕ) (h : Header) (width height : ℕ) (rows : List (List Pixel))
    → let offset = pixel_offset h in
      let size = row_size width (h.bi_bit_count / 8) in
      too_short (length dib_data) offset (pos height) size ≡ false
      → is_huge width (pos height) ≡ false
      → ltb (length dib_data) offset ≡ false
      → read_rows (drop offset dib_data) false h.bi_bit_count size width height height ≡ some rows
      → decode_pixels dib_data h false width (pos height)
        ≡ decoded (record { width = width; height = pos height; rows = rows })
unfolding decode_pixels read_image
decode_pixels-read_rows dib_data h width height rows e1 e2 e3 e4 =
    rw (e1, e2, e3, read_image, e4) refl

image_offset : (width height : ℕ) → pixel_offset (image_header width height) ≡ 40
unfolding pixel_offset image_header
image_offset width height = refl

image_supported : (width height : ℕ) → is_supported (image_header width height) ≡ true
unfolding is_supported image_header
image_supported width height = refl

le-mul : (a k : ℕ) → 0 < a → k ≤ a * k
le-mul zero k h = absurd (omega arith)
le-mul (suc a) k h = let split : suc a * k ≡ k + a * k = ground arith in omega arith

decode_dib-decode_checked :
    (dib_data : List ℕ) (h : Header) (width height : ℕ)
    → ltb (length dib_data) 40 ≡ false
    → read_header dib_data ≡ h
    → int32 h.bi_width ≡ pos width
    → int32 h.bi_height ≡ pos height
    → decode_dib dib_data ≡ decode_checked dib_data h (pos width) (pos height)
unfolding decode_dib
decode_dib-decode_checked dib_data h width height long e ew eh = rw (long, e, ew, eh) refl

module _ (width : ℕ) (rows : List (List Pixel)) (wide : 0 < width) (high : 0 < length rows)
    (small : length rows * (width * 4) < 2 ^ 31) where
  narrow : width < 2 ^ 31
  narrow = omega (arith, le-mul (length rows) (width * 4) high)

  low : length rows < 2 ^ 31
  low =
      let swapped : length rows * (width * 4) ≡ (width * 4) * length rows = ground arith in
      omega (arith, le-mul (width * 4) (length rows) (omega arith))

  not_huge : is_huge width (pos (length rows)) ≡ false
  unfolding is_huge
  not_huge =
      let swapped : 4 * width * length rows ≡ length rows * (width * 4) = ground arith in
      ground arith

  not_short :
      (n : ℕ)
      → n ≡ 40 + length rows * (width * 4)
      → too_short n 40 (pos (length rows)) (row_size width 4) ≡ false
  unfolding too_short expected_size
  not_short n e = rw (row_size_lem width) (ground arith)

  module _ (sound : All (IsRow width) rows) where
    header : Header
    header = image_header width (length rows)

    dib : List ℕ
    dib = header_bytes header ++ body rows

    length-dib : length dib ≡ 40 + length rows * (width * 4)
    unfolding dib
    length-dib = omega (
      arith,
      length-append (header_bytes header) (body rows),
      forty_bytes header,
      length-body width rows sound,
    )

    pixels_read :
        read_rows (drop 40 dib) false 32 (row_size width 4) width (length rows) (length rows)
        ≡ some rows
    unfolding dib
    pixels_read =
        ap (λ t. read_rows t false 32 (row_size width 4) width (length rows) (length rows))
          (drop-append (header_bytes header) (body rows) 40 (forty_bytes header)
            ∙ sym (append-nil (body rows)))
        ∙ ap (λ n. read_rows (body rows ++ []) false 32 n width (length rows) (length rows))
            (row_size_lem width)
        ∙ read_rows-append width (length rows) rows [] sound (omega arith)

    decode_dib-dib :
        decode_dib dib ≡ decoded (record { width = width; height = pos (length rows); rows = rows })
    unfolding dib header image_header pixel_offset
    decode_dib-dib =
        let n = length-dib in
        decode_dib-decode_checked dib header width (length rows) (ground arith)
          (read_header-bytes width (length rows) (body rows)) (int32_small width narrow)
          (int32_small (length rows) low)
        ∙ decode_checked_positive dib header width (length rows) wide high (ground arith)
            (image_supported width (length rows))
        ∙ decode_pixels-read_rows dib header width (length rows) rows (not_short (length dib) n)
            not_huge (ground arith) pixels_read

    -- A picture with rows of bytes of its own width, neither empty nor of 2 ^ 31 bytes or more, is
    -- written without an index out of range, and what is written is read as the same picture.
    pub decode_dib-image_to_dib :
        (dib_data : List ℕ) × (image_to_dib width rows ≡ some dib_data)
        × (decode_dib dib_data
            ≡ decoded (record { width = width; height = pos (length rows); rows = rows }))
    unfolding dib header
    decode_dib-image_to_dib = (dib, image_to_dib_lem width rows sound (omega arith), decode_dib-dib)
