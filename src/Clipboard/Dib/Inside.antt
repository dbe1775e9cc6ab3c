-- ===== src/Clipboard/Dib/Inside.antt =====
-- dibToPNG stays inside the data that it has checked.
use clip_queue.Prelude.{
  ℕ, zero, suc, ◌+◌, ◌-◌, ◌*◌, ◌/◌, ◌^◌, ◌<◌, ◌≤◌, ◌≡◌, refl, ap, Bool, true, false, not, List, [],
  ◌∷◌, some, ltb, ◌==◌, ◌||◌, length, drop, length-drop, get_elem?, All, arith, ℤ, pos, negsuc, ◌⊎◌,
  inl, inr, Bool-cases,
}
use clip_queue.Clipboard.Dib.{Pixel, Header, row_size, read_header}
use clip_queue.Clipboard.Dib.Decode.{
  Decoded, decoded, unsupported, int32, abs32, too_short, expected_size, is_huge, is_supported,
  pixel_offset, read_pixel, read_row, row_start, read_rows, read_image, decode_pixels,
  decode_checked, decode_dib, is_negative,
}

get-some : {A : Type 0} (xs : List A) (i : ℕ) → i < length xs → (a : A) × (get_elem? xs i ≡ some a)
get-some [] i h = absurd (omega arith)
get-some (x ∷ xs) zero h = (x, refl)
get-some (x ∷ xs) (suc i) h = get-some xs i (omega arith)

-- The depths that pass the checks.
abbrev pub IsDepth : ℕ → Type 0
IsDepth bit_count = (bit_count ≡ 24) ⊎ (bit_count ≡ 32)

read_pixel-some :
    (pixel_data : List ℕ) (bit_count i : ℕ)
    → IsDepth bit_count
    → i + bit_count / 8 ≤ length pixel_data
    → (p : Pixel) × (read_pixel pixel_data bit_count i ≡ some p)
unfolding read_pixel
read_pixel-some pixel_data bit_count i depth h =
    let (b, eb) = get-some pixel_data i (ground arith) in
    let (g, eg) = get-some pixel_data (i + 1) (ground arith) in
    let (r, er) = get-some pixel_data (i + 2) (ground arith) in
    elim depth [
      | inl e ↦
          let other : (bit_count == 32) ≡ false = ground arith in rw (eb, eg, er, other) (_, refl)
      | inr e ↦
          let same : (bit_count == 32) ≡ true = ground arith in
          let (a, ea) = get-some pixel_data (i + 3) (ground arith) in
          rw (eb, eg, er, same, ea) (_, refl)
    ]

read_row-some :
    (pixel_data : List ℕ) (bit_count start x left : ℕ)
    → IsDepth bit_count
    → start + (x + left) * (bit_count / 8) ≤ length pixel_data
    → (ps : List Pixel) × (read_row pixel_data bit_count start x left ≡ some ps)
      × (length ps ≡ left)
unfolding read_row
read_row-some pixel_data bit_count start x zero depth h = ([], refl, refl)
read_row-some pixel_data bit_count start x (suc left) depth h =
    let bpp = bit_count / 8 in
    let split : (x + suc left) * bpp ≡ x * bpp + bpp + left * bpp = ground arith in
    let next : (x + 1 + left) * bpp ≡ x * bpp + bpp + left * bpp = ground arith in
    let (p, ep) = read_pixel-some pixel_data bit_count (start + x * bpp) depth (omega arith) in
    let (ps, e, n) = read_row-some pixel_data bit_count start (x + 1) left depth (omega arith) in
    rw (ep, e) (p ∷ ps, refl, ap suc n)

mul-below : (k n size : ℕ) → k < n → k * size + size ≤ n * size
mul-below k n size h =
    let j = n - suc k in
    let e : n ≡ suc k + j = omega arith in
    let split : (suc k + j) * size ≡ k * size + size + j * size = ground arith in rw e (omega arith)

row_start-below :
    (is_top_down : Bool) (size height y : ℕ)
    → y < height
    → row_start is_top_down size height y + size ≤ height * size
unfolding row_start
row_start-below true size height y h = mul-below y height size h
row_start-below false size height y h = mul-below (height - 1 - y) height size (omega arith)

row_size-fits : (width bpp : ℕ) → width * bpp ≤ row_size width bpp
unfolding row_size
row_size-fits width bpp = omega arith

module _ (pixel_data : List ℕ) (is_top_down : Bool) (bit_count size width height : ℕ)
    (depth : IsDepth bit_count) (wide : width * (bit_count / 8) ≤ size)
    (inside : height * size ≤ length pixel_data) where
  read_rows-some :
      (left : ℕ)
      → left ≤ height
      → (rows : List (List Pixel)) × (read_rows pixel_data is_top_down bit_count size width height
            left
          ≡ some rows)
        × (length rows ≡ left)
        × All (λ row. length row ≡ width) rows
  unfolding read_rows
  read_rows-some zero h = ([], refl, refl, tt)
  read_rows-some (suc left) h =
      let y = height - suc left in
      let below = row_start-below is_top_down size height y (omega arith) in
      let first : (0 + width) * (bit_count / 8) ≡ width * (bit_count / 8) = ground arith in
      let (row, e, n) =
        read_row-some pixel_data bit_count (row_start is_top_down size height y) 0 width depth
          (omega arith) in
      let (rows, es, ns, all) = read_rows-some left (omega arith) in
      rw (e, es) (row ∷ rows, refl, ap suc ns, (n, all))

is_supported-IsDepth : (h : Header) → is_supported h ≡ true → IsDepth h.bi_bit_count
unfolding is_supported
is_supported-IsDepth h e = elim (Bool-cases (h.bi_bit_count == 24)) [
  | inl yes' ↦ inl (ground arith)
  | inr no' ↦ inr (ground arith)
]

-- What a decoding gives that neither panics nor loses a row or a pixel.
abbrev pub Sized : ℕ → ℕ → Decoded → Type 0
Sized width height d =
    (d ≡ unsupported)
    ⊎ ((rows : List (List Pixel)) × (d
          ≡ decoded (record { width = width; height = pos height; rows = rows }))
        × (length rows ≡ height)
        × All (λ row. length row ≡ width) rows)

decode_pixels-Sized :
    (dib_data : List ℕ) (h : Header) (is_top_down : Bool) (width height : ℕ)
    → IsDepth h.bi_bit_count
    → pixel_offset h + height * row_size width (h.bi_bit_count / 8) < 2 ^ 63
    → 4 * width * height < 2 ^ 63
    → Sized width height (decode_pixels dib_data h is_top_down width (pos height))
unfolding decode_pixels too_short expected_size is_huge read_image
decode_pixels-Sized dib_data h is_top_down width height depth fits small =
    let size = row_size width (h.bi_bit_count / 8) in
    let offset = pixel_offset h in
    let short = too_short (length dib_data) offset (pos height) size in
    elim (Bool-cases short) [
      | inl e ↦ rw e (inl refl)
      | inr e ↦
          let long : offset + height * size ≤ length dib_data = ground arith in
          let whole : is_huge width (pos height) ≡ false = ground arith in
          let there : ltb (length dib_data) offset ≡ false = ground arith in
          let inside : height * size ≤ length (drop offset dib_data) =
            omega (arith, length-drop offset dib_data) in
          let (rows, er, n, all) =
            read_rows-some (drop offset dib_data) is_top_down h.bi_bit_count size width height depth
              (row_size-fits width (h.bi_bit_count / 8)) inside height (omega arith) in
          rw (e, whole, there, er) (inr (rows, refl, n, all))
    ]

decode_checked-Sized :
    (dib_data : List ℕ) (h : Header) (width height : ℕ) (signed : ℤ)
    → abs32 signed ≡ pos height
    → pixel_offset h + height * row_size width (h.bi_bit_count / 8) < 2 ^ 63
    → 4 * width * height < 2 ^ 63
    → Sized width height (decode_checked dib_data h (pos width) signed)
unfolding decode_checked
decode_checked-Sized dib_data h zero height signed e fits small = inl refl
decode_checked-Sized dib_data h (suc width) height (pos zero) e fits small = inl refl
decode_checked-Sized dib_data h (suc width) height (pos (suc n)) e fits small =
    elim (Bool-cases (ltb (length dib_data) h.bi_size || not (is_supported h))) [
      | inl bad ↦ rw bad (inl refl)
      | inr good ↦
          rw (good, e)
            (decode_pixels-Sized dib_data h (is_negative (pos (suc n))) (suc width) height
              (is_supported-IsDepth h (ground arith)) fits small)
    ]
decode_checked-Sized dib_data h (suc width) height (negsuc n) e fits small =
    elim (Bool-cases (ltb (length dib_data) h.bi_size || not (is_supported h))) [
      | inl bad ↦ rw bad (inl refl)
      | inr good ↦
          rw (good, e)
            (decode_pixels-Sized dib_data h (is_negative (negsuc n)) (suc width) height
              (is_supported-IsDepth h (ground arith)) fits small)
    ]

-- Whatever the data: if the width of its header is not negative, its height not the least number of
-- 32 bits, and neither the offset of the end of the rows nor the bytes of the picture reach 2 ^ 63,
-- no index is out of range, and what is not refused is a picture of that width and height.
pub decode_dib-Sized :
    (dib_data : List ℕ) (h : Header) (width height : ℕ)
    → read_header dib_data ≡ h
    → int32 h.bi_width ≡ pos width
    → abs32 (int32 h.bi_height) ≡ pos height
    → pixel_offset h + height * row_size width (h.bi_bit_count / 8) < 2 ^ 63
    → 4 * width * height < 2 ^ 63
    → Sized width height (decode_dib dib_data)
unfolding decode_dib
decode_dib-Sized dib_data h width height e ew eh fits small =
    elim (Bool-cases (ltb (length dib_data) 40)) [
      | inl short ↦ rw short (inl refl)
      | inr long ↦
          rw (long, e, ew)
            (decode_checked-Sized dib_data h width height (int32 h.bi_height) eh fits small)
    ]
