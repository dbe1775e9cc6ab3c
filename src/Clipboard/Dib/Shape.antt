-- ===== src/Clipboard/Dib/Shape.antt =====
-- The bytes that imageToDIB makes: the header, and the rows from the lowest up.
use clip_queue.Prelude.{
  ℕ, zero, suc, ◌+◌, ◌*◌, ◌/◌, ◌%◌, ◌^◌, ◌<◌, ◌≡◌, refl, sym, ap, ◌∙◌, true, List, [], ◌∷◌, ◌++◌,
  some, ltb, length, set, get_elem?, replicate, append_assoc, append-nil, length-append,
  length-replicate, All, arith,
}
use clip_queue.Clipboard.Dib.{
  Pixel, Header, put, write_pixel, write_row, write_rows, row_size, header_bytes, image_header,
  image_to_dib, le16, le32,
}

-- A channel is a byte.
pub record IsPixel (p : Pixel) : Type 0 where
  pub r_byte : p.r < 256
  pub g_byte : p.g < 256
  pub b_byte : p.b < 256
  pub a_byte : p.a < 256

-- The bytes of a row, and of the rows from the lowest up.
unfoldable pub row_bytes : List Pixel → List ℕ
row_bytes [] = []
row_bytes (p ∷ pixels) = p.b ∷ p.g ∷ p.r ∷ p.a ∷ row_bytes pixels

unfoldable pub body : List (List Pixel) → List ℕ
body [] = []
body (pixels ∷ rows) = body rows ++ row_bytes pixels

-- Every row is as long as the picture is wide, and has bytes.
abbrev pub IsRow : ℕ → List Pixel → Type 0
IsRow width pixels = (length pixels ≡ width) × All IsPixel pixels

pub length-row_bytes : (pixels : List Pixel) → length (row_bytes pixels) ≡ length pixels * 4
unfolding row_bytes
length-row_bytes [] = omega arith
length-row_bytes (p ∷ pixels) = omega (arith, length-row_bytes pixels)

set-append :
    {A : Type 0} (pre rest : List A) (k : ℕ) (v : A)
    → set (pre ++ rest) (length pre + k) v ≡ pre ++ set rest k v
set-append [] rest k v = ap (λ i. set rest i v) (omega arith)
set-append (x ∷ pre) rest k v =
    let e : suc (length pre) + k ≡ suc (length pre + k) = omega arith in
    ap (λ i. set (x ∷ (pre ++ rest)) i v) e ∙ ap (◌∷◌ x) (set-append pre rest k v)

pub get-append :
    {A : Type 0} (pre rest : List A) (k : ℕ)
    → get_elem? (pre ++ rest) (length pre + k) ≡ get_elem? rest k
get-append [] rest k = ap (get_elem? rest) (omega arith)
get-append (x ∷ pre) rest k =
    let e : suc (length pre) + k ≡ suc (length pre + k) = omega arith in
    ap (get_elem? (x ∷ (pre ++ rest))) e ∙ get-append pre rest k

put-append :
    (pre rest : List ℕ) (i k c : ℕ)
    → i ≡ length pre + k
    → k < length rest
    → c < 256
    → put i c (pre ++ rest) ≡ some (pre ++ set rest k c)
unfolding put
put-append pre rest i k c e h small =
    let inside : ltb i (length (pre ++ rest)) ≡ true = ground (arith, length-append pre rest) in
    let same : c * 257 / 256 % 256 ≡ c = omega arith in
    rw (inside, same) (ap some (ap (λ j. set (pre ++ rest) j c) e ∙ set-append pre rest k c))

write_pixel-append :
    (pre rest : List ℕ) (i o1 o2 o3 o4 : ℕ) (p : Pixel)
    → i ≡ length pre
    → IsPixel p
    → write_pixel i p (pre ++ o1 ∷ o2 ∷ o3 ∷ o4 ∷ rest) ≡ some (pre ++ p.b ∷ p.g ∷ p.r ∷ p.a ∷ rest)
unfolding write_pixel
write_pixel-append pre rest i o1 o2 o3 o4 p e h =
    rw
      (
        put-append pre (o1 ∷ o2 ∷ o3 ∷ o4 ∷ rest) i 0 p.b (omega arith) (omega arith) h.b_byte,
        put-append pre (p.b ∷ o2 ∷ o3 ∷ o4 ∷ rest) (i + 1) 1 p.g (omega arith) (omega arith)
            h.g_byte,
        put-append pre (p.b ∷ p.g ∷ o3 ∷ o4 ∷ rest) (i + 2) 2 p.r (omega arith) (omega arith)
            h.r_byte,
        put-append pre (p.b ∷ p.g ∷ p.r ∷ o4 ∷ rest) (i + 3) 3 p.a (omega arith) (omega arith)
            h.a_byte,
      )
      refl

snoc4 :
    (pre rest : List ℕ) (a b c d : ℕ)
    → (pre ++ a ∷ b ∷ c ∷ d ∷ []) ++ rest ≡ pre ++ a ∷ b ∷ c ∷ d ∷ rest
snoc4 pre rest a b c d = append_assoc pre (a ∷ b ∷ c ∷ d ∷ []) rest

-- As many old bytes as the pixels have.
abbrev zeros : List Pixel → List ℕ
zeros [] = []
zeros (p ∷ pixels) = 0 ∷ 0 ∷ 0 ∷ 0 ∷ zeros pixels

zeros-replicate :
    (pixels : List Pixel) (width : ℕ)
    → length pixels ≡ width
    → replicate (width * 4) 0 ≡ zeros pixels
zeros-replicate [] width e =
    let none_left : width * 4 ≡ 0 = omega arith in ap (λ n. replicate n 0) none_left
zeros-replicate (p ∷ pixels) width e =
    let four_more : width * 4 ≡ suc (suc (suc (suc (length pixels * 4)))) = omega arith in
    ap (λ n. replicate n 0) four_more
    ∙ ap (λ zs. 0 ∷ 0 ∷ 0 ∷ 0 ∷ zs) (zeros-replicate pixels (length pixels) refl)

write_row-append :
    (pixels : List Pixel) (pre rest : List ℕ) (start x : ℕ)
    → start + x * 4 ≡ length pre
    → All IsPixel pixels
    → write_row start x pixels (pre ++ (zeros pixels ++ rest))
      ≡ some (pre ++ (row_bytes pixels ++ rest))
unfolding write_row row_bytes
write_row-append [] pre rest start x e h = refl
write_row-append (p ∷ pixels) pre rest start x e (hp, hs) =
    let done = pre ++ p.b ∷ p.g ∷ p.r ∷ p.a ∷ [] in
    let grown : start + (x + 1) * 4 ≡ length done =
      omega (arith, length-append pre (p.b ∷ p.g ∷ p.r ∷ p.a ∷ [])) in
    rw (write_pixel-append pre (zeros pixels ++ rest) (start + x * 4) 0 0 0 0 p e hp) (
      ap (write_row start (x + 1) pixels) (sym (snoc4 pre (zeros pixels ++ rest) p.b p.g p.r p.a))
      ∙ write_row-append pixels done rest start (x + 1) grown hs
      ∙ ap some (snoc4 pre (row_bytes pixels ++ rest) p.b p.g p.r p.a))

replicate-add :
    (m n : ℕ) (rest : List ℕ)
    → replicate (m + n) 0 ++ rest ≡ replicate m 0 ++ (replicate n 0 ++ rest)
replicate-add zero n rest = let e : 0 + n ≡ n = omega arith in ap (λ k. replicate k 0 ++ rest) e
replicate-add (suc m) n rest =
    let e : suc m + n ≡ suc (m + n) = omega arith in
    ap (λ k. replicate k 0 ++ rest) e ∙ ap (◌∷◌ 0) (replicate-add m n rest)

pub length-body :
    (width : ℕ) (rows : List (List Pixel))
    → All (IsRow width) rows
    → length (body rows) ≡ length rows * (width * 4)
unfolding body
length-body width [] h = omega arith
length-body width (row ∷ rows) ((e, hr), hs) =
    length-append (body rows) (row_bytes row)
    ∙ ap (λ n. n + length (row_bytes row)) (length-body width rows hs)
    ∙ ap (λ n. length rows * (width * 4) + n) (length-row_bytes row ∙ ap (λ n. n * 4) e)
    ∙ ground arith

write_rows-append :
    (width : ℕ) (rows : List (List Pixel)) (pre rest : List ℕ) (offset : ℕ)
    → offset ≡ length pre
    → All (IsRow width) rows
    → write_rows offset (width * 4) rows (pre ++ (replicate (length rows * (width * 4)) 0 ++ rest))
      ≡ some (pre ++ (body rows ++ rest))
unfolding write_rows body
write_rows-append width [] pre rest offset e h =
    let no_rows : 0 * (width * 4) ≡ 0 = omega arith in
    ap (λ n. some (pre ++ (replicate n 0 ++ rest))) no_rows
write_rows-append width (row ∷ rows) pre rest offset e ((er, hr), hs) =
    let n = length rows * (width * 4) in
    let split : suc (length rows) * (width * 4) ≡ n + width * 4 = ground arith in
    let filled : length (replicate {A = ℕ} n 0) ≡ n = length-replicate n 0 in
    let pre2 = pre ++ replicate n 0 in
    let start : offset + n + 0 * 4 ≡ length pre2 =
      omega (arith, e, length-append pre (replicate n 0), filled) in
    let old : pre ++ (replicate (suc (length rows) * (width * 4)) 0 ++ rest)
        ≡ pre2 ++ (zeros row ++ rest) =
      ap (λ k. pre ++ (replicate k 0 ++ rest)) split
      ∙ ap (λ t. pre ++ t) (replicate-add n (width * 4) rest)
      ∙ ap (λ t. pre ++ (replicate n 0 ++ (t ++ rest))) (zeros-replicate row width er)
      ∙ sym (append_assoc pre (replicate n 0) (zeros row ++ rest)) in
    rw (old, write_row-append row pre2 rest (offset + n) 0 start hr)
      (ap (write_rows offset (width * 4) rows)
          (append_assoc pre (replicate n 0) (row_bytes row ++ rest))
        ∙ write_rows-append width rows pre (row_bytes row ++ rest) offset e hs
        ∙ ap (λ t. some (pre ++ t)) (sym (append_assoc (body rows) (row_bytes row) rest)))

pub row_size_lem : (width : ℕ) → row_size width 4 ≡ width * 4
unfolding row_size
row_size_lem width = omega arith

pub forty_bytes : (h : Header) → 40 ≡ length (header_bytes h)
unfolding header_bytes le16 le32
forty_bytes h = refl

-- The forty bytes of the header, and then those of the rows from the lowest up.
pub image_to_dib_lem :
    (width : ℕ) (rows : List (List Pixel))
    → All (IsRow width) rows
    → length rows * (width * 4) < 2 ^ 32
    → image_to_dib width rows ≡ some (header_bytes (image_header width (length rows)) ++ body rows)
unfolding image_to_dib image_header
image_to_dib_lem width rows h small =
    let header = header_bytes (image_header width (length rows)) in
    let size : (row_size width 4 * length rows) % 2 ^ 32 ≡ length rows * (width * 4) =
      ap (λ n. (n * length rows) % 2 ^ 32) (row_size_lem width) ∙ ground arith in
    let forty : 40 ≡ length header = forty_bytes (image_header width (length rows)) in
    ap (λ n. write_rows 40 (row_size width 4) rows (header ++ replicate n 0)) size
    ∙ ap (λ n. write_rows 40 n rows (header ++ replicate (length rows * (width * 4)) 0))
        (row_size_lem width)
    ∙ ap (λ t. write_rows 40 (width * 4) rows (header ++ t))
        (sym (append-nil (replicate (length rows * (width * 4)) 0)))
    ∙ write_rows-append width rows header [] 40 forty h
    ∙ ap (λ t. some (header ++ t)) (append-nil (body rows))
