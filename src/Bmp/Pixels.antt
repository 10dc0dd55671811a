-- ===== src/Bmp/Pixels.antt =====
-- What the reader of Tools/src/bmp.cpp returns for files of 32 bits a pixel, and what becomes of
-- files of 8 bits a pixel, which are the ones that the writers make.
use native.Mathlib.Nat.{mod-eq_of_lt, mod-le}
use network_structure.Prelude.{
  ℕ, zero, suc, ◌+◌, ◌*◌, ◌/◌, ◌%◌, ◌^◌, ◌≤◌, ◌<◌, ◌≡◌, refl, ap, ◌∙◌, inl, inr, false, none, some,
  List, [], ◌∷◌, arith, ◌>>=◌, Option-cases, length, get_elem?, take, drop, length-take,
  length-drop,
}
use network_structure.Bmp.Read.{
  pixel_rows, fill_raw, read_info_header, rows_of, image_of, read_file_header, int_of,
  get_line_bytes, pixel_row, read_pixel_data,
}
use network_structure.Prelude.Index.{get_elem?-drop}
use network_structure.Bmp.Rows.{pixel_rows_lem}
use network_structure.Bmp.{InfoHeader, FileHeader}

pub record Header (long : ℕ) (file : List ℕ) (width height bits off : ℕ) : Type 0 where
  pub bmfh : FileHeader
  pub bmih : InfoHeader
  pub file_read : read_file_header long file ≡ some bmfh
  pub info_read : read_info_header long file ≡ some bmih
  pub off_is : bmfh.bf_off_bits ≡ off
  pub width_is : bmih.bi_width ≡ width
  pub height_is : bmih.bi_height ≡ height
  pub bits_is : bmih.bi_bit_count ≡ bits
  pub width_small : width < 2 ^ 31
  pub height_small : height < 2 ^ 31

get_line_bytes-thirty_two :
    (width : ℕ) → width * 32 + 31 < 2 ^ 31 → get_line_bytes width 32 ≡ some (width * 4)
unfolding get_line_bytes
get_line_bytes-thirty_two width h = ground (arith, h)

get_elem?-beyond : (xs : List ℕ) (i : ℕ) → length xs ≤ i → get_elem? xs i ≡ none
get_elem?-beyond [] i h = refl
get_elem?-beyond (x ∷ xs) zero h = absurd (omega (arith, h))
get_elem?-beyond (x ∷ xs) (suc i) h = get_elem?-beyond xs i (omega (arith, h))

get_elem?-take : (xs : List ℕ) (n i : ℕ) → i < n → get_elem? (take n xs) i ≡ get_elem? xs i
get_elem?-take xs zero i h = absurd (omega arith)
get_elem?-take [] (suc n) i h = refl
get_elem?-take (x ∷ xs) (suc n) zero h = refl
get_elem?-take (x ∷ xs) (suc n) (suc i) h = get_elem?-take xs n i (omega arith)

-- A line whose last pixel lies outside the data is undefined.
pixel_row-short :
    (imgdata : List ℕ) (row n w : ℕ)
    → length imgdata ≤ row + (w + n) * 4
    → pixel_row imgdata row (suc n) w ≡ none
unfolding pixel_row
pixel_row-short imgdata row zero w h =
    rw (get_elem?-beyond imgdata (row + w * 4) (omega arith)) refl
pixel_row-short imgdata row (suc n) w h =
    let r = pixel_row-short imgdata row n (w + 1) (omega arith) in
    ap (λ t. get_elem? imgdata (row + w * 4) >>= λ p. t >>= λ rest. some (p ∷ rest)) r
    ∙ elim (Option-cases (get_elem? imgdata (row + w * 4))) [
      | inl e ↦ rw e refl
      | inr (p, e) ↦ rw e refl
    ]

int_of_small : (v : ℕ) → v < 2 ^ 31 → int_of v ≡ some v
unfolding int_of
int_of_small v h = ground (arith, h)

read_pixel_data-Header :
    (long width height bits off line : ℕ) (file : List ℕ)
    → Header long file width height bits off
    → get_line_bytes width bits ≡ some line
    → read_pixel_data long false file
      ≡ image_of width height bits (
          rows_of (take (line * height % 256 ^ long) (drop off file)) width line height bits
          >>= fill_raw width height)
unfolding read_pixel_data
read_pixel_data-Header long width height bits off line file h e =
    let a = int_of_small width h.width_small in
    let b = int_of_small height h.height_small in
    rw (h.file_read, h.info_read, h.width_is, h.height_is, h.off_is, h.bits_is, a, b, e) refl

-- The levels that a file of 32 bits a pixel gives: where its headers say so, its width and height
-- are those of an `int`, their product and the bits of a line are below 2 ^ 31 and the bytes of the
-- lines fit in an `unsigned long` and stand in the file, the reader returns width * height levels,
-- the lines in the opposite order and of each pixel the first byte.
pub read_pixel_data-thirty_two :
    (long width height off : ℕ) (file : List ℕ)
    → Header long file width height 32 off
    → width * 32 + 31 < 2 ^ 31
    → height * width < 2 ^ 31
    → width * 4 * height < 256 ^ long
    → off + width * 4 * height ≤ length file
    → (levels : List ℕ) × (read_pixel_data long false file
        ≡ some (record { raw = some levels; width = width; height = height; bitc = 32 }))
      × (length levels ≡ height * width)
      × ((i k j : ℕ)
          → i + suc k ≡ height
          → j < width
          → get_elem? levels (k * width + j) ≡ get_elem? file (off + (width * 4 * i + j * 4)))
unfolding rows_of fill_raw image_of
read_pixel_data-thirty_two long width height off file h l1 l2 l3 l4 =
    let size = width * 4 * height in
    let m : size % 256 ^ long ≡ size = mod-eq_of_lt l3 in
    let block = take size (drop off file) in
    let l = length-take size (drop off file) in
    let d = length-drop off file in
    let (levels, e, r) =
      pixel_rows_lem block width (width * 4) height (omega arith) (omega (arith, l, d, l4)) in
    (
      levels,
      read_pixel_data-Header long width height 32 off (width * 4) file h
            (get_line_bytes-thirty_two width l1)
          ∙ rw m (rw e (ground (arith, r.size, l2))),
      r.size,
      λ i k j p q.
          r.at i k j p q
          ∙ get_elem?-take (drop off file) size (width * 4 * i + (0 + j) * 4)
              (omega (arith, q, ap (λ t. width * 4 * t) p))
          ∙ get_elem?-drop off (width * 4 * i + (0 + j) * 4) file
          ∙ ap (get_elem? file) (omega arith),
    )

get_line_bytes-eight :
    (width : ℕ)
    → width * 8 + 31 < 2 ^ 31
    → get_line_bytes width 8 ≡ some ((width * 8 + 31) / 32 * 4)
unfolding get_line_bytes
get_line_bytes-eight width h = ground (arith, h)

pixel_rows-short :
    (imgdata : List ℕ) (width line height : ℕ)
    → line ≤ width * 4
    → length imgdata ≤ line * suc height
    → pixel_rows imgdata (suc width) line (suc height) ≡ none
unfolding pixel_rows
pixel_rows-short imgdata width line height g h =
    rw (pixel_row-short imgdata (line * height) width 0 (omega arith)) refl

-- Reading a file of 8 bits a pixel, such as the writers make, is undefined for every bitmap of a
-- line or more and of two pixels or more in a line: the reader takes each fourth byte, and leaves
-- the block.
pub read_pixel_data-eight :
    (long width height off : ℕ) (file : List ℕ)
    → Header long file (suc (suc width)) (suc height) 8 off
    → suc (suc width) * 8 + 31 < 2 ^ 31
    → read_pixel_data long false file ≡ none
unfolding rows_of fill_raw image_of
read_pixel_data-eight long width height off file h l =
    let w = suc (suc width) in
    let line = (w * 8 + 31) / 32 * 4 in
    let size = line * suc height in
    let block = take (size % 256 ^ long) (drop off file) in
    read_pixel_data-Header long w (suc height) 8 off line file h (get_line_bytes-eight w l)
    ∙ rw
        (pixel_rows-short block (suc width) line height (omega arith) (
          omega (arith, length-take (size % 256 ^ long) (drop off file), mod-le size (256 ^ long))))
        refl
