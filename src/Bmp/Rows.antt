-- ===== src/Bmp/Rows.antt =====
-- What the loops of Tools/src/bmp.cpp over the bytes of a line and over the lines put down: the
-- copying of both writers and the reader's for pixels of more than one bit.
use network_structure.Prelude.{
  ℕ, zero, suc, ◌+◌, ◌*◌, ◌≤◌, ◌<◌, ◌≡◌, refl, sym, ap, ◌∙◌, fun_ext, subst, Option, some, List, [],
  ◌∷◌, ◌++◌, arith, length, get_elem?, length-append,
}
use network_structure.Bmp.Read.{pixel_row, pixel_rows}
use network_structure.Prelude.Index.{get_elem?-append_left, get_elem?-append_right, entry}
use network_structure.Bmp.{copy_row, copy_rows}

-- The list holds the answers of `f` to the numbers below `n`.
pub record Reads (f : ℕ → Option ℕ) (n : ℕ) (bytes : List ℕ) : Type 0 where
  pub size : length bytes ≡ n
  pub at : (j : ℕ) → j < n → get_elem? bytes j ≡ f j

-- The list holds lines of `width` numbers, `f i` being the line `i` from the end.
pub record Flipped (f : ℕ → ℕ → Option ℕ) (width height : ℕ) (bytes : List ℕ) : Type 0 where
  pub size : length bytes ≡ height * width
  pub at : (i k j : ℕ) → i + suc k ≡ height → j < width → get_elem? bytes (k * width + j) ≡ f i j

Reads-cons_at :
    (f : ℕ → Option ℕ) (n b : ℕ) (bytes : List ℕ)
    → f 0 ≡ some b
    → Reads (λ j. f (suc j)) n bytes
    → (j : ℕ) → j < suc n
    → get_elem? (b ∷ bytes) j ≡ f j
Reads-cons_at f n b bytes h r zero l = sym h
Reads-cons_at f n b bytes h r (suc j) l = r.at j (omega arith)

Reads-cons :
    (f : ℕ → Option ℕ) (n b : ℕ) (bytes : List ℕ)
    → f 0 ≡ some b
    → Reads (λ j. f (suc j)) n bytes
    → Reads f (suc n) (b ∷ bytes)
Reads-cons f n b bytes h r = record {
  size = ap (λ t. suc t) r.size;
  at = Reads-cons_at f n b bytes h r;
}

Flipped-append_at :
    (f : ℕ → ℕ → Option ℕ) (width n : ℕ) (row rows : List ℕ)
    → Reads (f n) width row
    → Flipped f width n rows
    → (i k j : ℕ) → i + suc k ≡ suc n
    → j < width
    → get_elem? (row ++ rows) (k * width + j) ≡ f i j
Flipped-append_at f width n row rows r s i zero j h l =
    ap (get_elem? (row ++ rows)) (omega arith)
    ∙ get_elem?-append_left row rows j (omega (arith, r.size))
    ∙ r.at j l
    ∙ ap (λ t. f t j) (omega (arith, h))
Flipped-append_at f width n row rows r s i (suc k) j h l =
    ap (get_elem? (row ++ rows)) (omega (arith, r.size))
    ∙ get_elem?-append_right row rows (k * width + j)
    ∙ s.at i k j (omega (arith, h)) l

Flipped-append :
    (f : ℕ → ℕ → Option ℕ) (width n : ℕ) (row rows : List ℕ)
    → Reads (f n) width row
    → Flipped f width n rows
    → Flipped f width (suc n) (row ++ rows)
Flipped-append f width n row rows r s = record {
  size = ground (arith, length-append row rows, r.size, s.size);
  at = Flipped-append_at f width n row rows r s;
}

module _ (buff : List ℕ) where
  pub copy_row_lem :
      (n addr : ℕ)
      → addr + n ≤ length buff
      → (bytes : List ℕ) × (copy_row buff n addr ≡ some bytes)
        × Reads (λ j. get_elem? buff (addr + j)) n bytes
  unfolding copy_row
  copy_row_lem zero addr h = ([], refl, record { size = refl; at = λ j l. absurd (omega arith) })
  copy_row_lem (suc n) addr h =
      let (b, e) = entry buff addr (omega arith) in
      let (bytes, f, r) = copy_row_lem n (addr + 1) (omega arith) in
      (
        b ∷ bytes,
        rw e (rw f refl),
        Reads-cons (λ j. get_elem? buff (addr + j)) n b bytes
            (ap (get_elem? buff) (omega arith) ∙ e)
            (subst (λ g. Reads g n bytes) (fun_ext (λ j. ap (get_elem? buff) (omega arith))) r),
      )

  pub copy_rows_lem :
      (width height : ℕ)
      → height * width ≤ length buff
      → (bytes : List ℕ) × (copy_rows buff width height ≡ some bytes)
        × Flipped (λ i j. get_elem? buff (i * width + j)) width height bytes
  unfolding copy_rows
  copy_rows_lem width zero h =
      ([], refl, record { size = omega arith; at = λ i k j e l. absurd (omega (arith, e)) })
  copy_rows_lem width (suc n) h =
      let (row, e, r) = copy_row_lem width (n * width) (omega arith) in
      let (rows, f, s) = copy_rows_lem width n (omega arith) in
      (
        row ++ rows,
        rw e (rw f refl),
        Flipped-append (λ i j. get_elem? buff (i * width + j)) width n row rows r s,
      )

module _ (imgdata : List ℕ) where
  pub pixel_row_lem :
      (row n w : ℕ)
      → row + (w + n) * 4 ≤ length imgdata
      → (bytes : List ℕ) × (pixel_row imgdata row n w ≡ some bytes)
        × Reads (λ j. get_elem? imgdata (row + (w + j) * 4)) n bytes
  unfolding pixel_row
  pixel_row_lem row zero w h = ([], refl, record { size = refl; at = λ j l. absurd (omega arith) })
  pixel_row_lem row (suc n) w h =
      let (b, e) = entry imgdata (row + w * 4) (omega arith) in
      let (bytes, f, r) = pixel_row_lem row n (w + 1) (omega arith) in
      (
        b ∷ bytes,
        rw e (rw f refl),
        Reads-cons (λ j. get_elem? imgdata (row + (w + j) * 4)) n b bytes
            (ap (get_elem? imgdata) (omega arith) ∙ e)
            (subst (λ g. Reads g n bytes) (fun_ext (λ j. ap (get_elem? imgdata) (omega arith))) r),
      )

  pub pixel_rows_lem :
      (width line height : ℕ)
      → width * 4 ≤ line
      → line * height ≤ length imgdata
      → (bytes : List ℕ) × (pixel_rows imgdata width line height ≡ some bytes)
        × Flipped (λ i j. get_elem? imgdata (line * i + (0 + j) * 4)) width height bytes
  unfolding pixel_rows
  pixel_rows_lem width line zero g h =
      ([], refl, record { size = omega arith; at = λ i k j e l. absurd (omega (arith, e)) })
  pixel_rows_lem width line (suc n) g h =
      let (row, e, r) = pixel_row_lem (line * n) width 0 (omega arith) in
      let (rows, f, s) = pixel_rows_lem width line n g (omega arith) in
      (
        row ++ rows,
        rw e (rw f refl),
        Flipped-append (λ i j. get_elem? imgdata (line * i + (0 + j) * 4)) width n row rows r s,
      )
