-- ===== src/Bmp/Layout.antt =====
-- What `encode_bmp` and `RawToBmp` of Tools/src/bmp.cpp put down, and where.
use network_structure.Prelude.{
  ℕ, zero, suc, ◌+◌, ◌*◌, ◌^◌, ◌≤◌, ◌<◌, ◌≡◌, refl, sym, ap, ◌∙◌, fun_ext, inl, inr, true, false,
  Option, none, some, List, [], ◌++◌, ◌==◌, leb, arith, ltb, Bool-cases, ◌>>=◌, Option-cases,
  length, get_elem?, take, length-append, length-take,
}
use network_structure.Prelude.Index.{get_elem?-append_right}
use network_structure.Bmp.{
  write_info_header, copy_rows, pos, write_over, write_file_header, encode_bmp, raw_to_bmp,
  clr_table_size, info_head_size, file_head_size, FileHeader, InfoHeader, file_header_bytes,
  info_header_bytes, grey_levels, head_bytes, Cursor, put_bytes, put_rows, memory_of,
}
use network_structure.Bmp.Rows.{copy_rows_lem}
use network_structure.Prelude.Int.{ℤ}
use network_structure.Bmp.Writes.{bind-none, put_bytes-then, put_bytes_lem, put_rows_lem}
use network_structure.Bmp.Bytes.{length-bytes_of}

length-take_full : (n : ℕ) (xs : List ℕ) → n ≤ length xs → length (take n xs) ≡ n
length-take_full n xs h = omega (arith, h, length-take n xs)

length-grey_levels : (n i : ℕ) → length (grey_levels n i) ≡ n * 4
unfolding grey_levels
length-grey_levels zero i = refl
length-grey_levels (suc n) i = omega (arith, length-grey_levels n (i + 1))

module _ (long : ℕ) (h : 4 ≤ long) where
  length-file_header_bytes : (b : FileHeader) → length (file_header_bytes long b) ≡ 6 + 2 * long
  unfolding file_header_bytes
  length-file_header_bytes b = simp (length-append, length-bytes_of) (omega arith)

  length-info_header_bytes : (b : InfoHeader) → length (info_header_bytes long b) ≡ 4 + 9 * long
  unfolding info_header_bytes
  length-info_header_bytes b = simp (length-append, length-bytes_of) (omega arith)

  length-head_bytes : (b : FileHeader) (c : InfoHeader) → length (head_bytes long b c) ≡ 1078
  unfolding head_bytes
  length-head_bytes b c =
      let x =
        length-take_full file_head_size (file_header_bytes long b)
          (omega (arith, h, length-file_header_bytes b)) in
      let y =
        length-take_full info_head_size (info_header_bytes long c)
          (omega (arith, h, length-info_header_bytes c)) in
      let z =
        length-take_full clr_table_size (grey_levels 256 0)
          (omega (arith, length-grey_levels 256 0)) in
      let u = take file_head_size (file_header_bytes long b) in
      let v = take info_head_size (info_header_bytes long c) in
      let w = take clr_table_size (grey_levels 256 0) in
      omega (arith, x, y, z, length-append u (v ++ w), length-append v w)

  -- Where the bitmap fits in an `int`, the block can be had and the buffer holds the pixels,
  -- `encode_bmp` returns a block of 1078 + width * height bytes and that size, and in it the lines
  -- stand from offset 1078 on in the opposite order, the pixels of each in theirs.
  pub encode_bmp-flips :
      (buff : List ℕ) (width height : ℕ)
      → 1078 + width * height < 2 ^ 31
      → height * width ≤ length buff
      → (bytes : List ℕ) × (encode_bmp long true buff width height
          ≡ some (bytes, 1078 + width * height))
        × (length bytes ≡ 1078 + width * height)
        × ((i k j : ℕ)
            → i + suc k ≡ height
            → j < width
            → get_elem? bytes (1078 + (k * width + j)) ≡ get_elem? buff (i * width + j))
  unfolding encode_bmp write_file_header
  encode_bmp-flips buff width height f g =
      let (rows, e, r) = copy_rows_lem buff width height g in
      let bmfh : FileHeader = record {
        bf_type = 19778;
        bf_size = 1078 + width * height;
        bf_reserved1 = 0;
        bf_reserved2 = 0;
        bf_off_bits = 1078;
      } in
      let head = head_bytes long bmfh (write_info_header width height) in
      let l = length-head_bytes bmfh (write_info_header width height) in
      (
        head ++ rows,
        ground (arith, e),
        omega (arith, l, r.size, length-append head rows),
        λ i k j p q.
            ap (λ t. get_elem? (head ++ rows) (t + (k * width + j))) (sym l)
            ∙ get_elem?-append_right head rows (k * width + j)
            ∙ r.at i k j p q,
      )

module _ (p_in : List ℕ) (width height : ℕ) {B : Type 0} (k : Cursor → Option B) where
  -- Three copies and the loops, against one copy of all.
  writes-put_bytes :
      (a b d : List ℕ) (c : Cursor)
      → (do
        c1 ← put_bytes a c
        c2 ← put_bytes b c1
        c3 ← put_bytes d c2
        put_rows p_in width height c3 >>= k)
        ≡ (copy_rows p_in width height >>= λ rows. put_bytes ((a ++ (b ++ d)) ++ rows) c >>= k)
  writes-put_bytes a b d c = elim (Option-cases (copy_rows p_in width height)) [
    | inl e ↦
        let stop : (c3 : Cursor) → (put_rows p_in width height c3 >>= k) ≡ none = λ c3.
          ap (◌>>= k) (put_rows_lem p_in width height c3 ∙ ap (◌>>= λ bs. put_bytes bs c3) e) in
        bind-none (put_bytes a c) _
          (λ c1. bind-none (put_bytes b c1) _ (λ c2. bind-none (put_bytes d c2) _ stop))
        ∙ rw e refl
    | inr (rows, e) ↦
        let go : (c3 : Cursor) → (put_rows p_in width height c3 >>= k) ≡ (put_bytes rows c3 >>= k) =
          λ c3.
            ap (◌>>= k) (put_rows_lem p_in width height c3 ∙ ap (◌>>= λ bs. put_bytes bs c3) e) in
        let last : Cursor → Option B = λ c3. put_bytes rows c3 >>= k in
        ap (λ f. do c1 ← put_bytes a c; c2 ← put_bytes b c1; put_bytes d c2 >>= f) (fun_ext go)
        ∙ ap (◌>>=◌ (put_bytes a c)) (fun_ext (λ c1. sym (put_bytes-then b d c1 last)))
        ∙ sym (put_bytes-then a (b ++ d) c last)
        ∙ sym (put_bytes-then (a ++ (b ++ d)) rows c k)
        ∙ rw e refl
  ]

-- The block after its last write, and the result.
abbrev finished : ℤ → Cursor → Option (Option (List ℕ) × ℤ)
finished size c = some (some (c.before ++ c.after), size)

abbrev returned : ℤ → List ℕ → Option (Option (List ℕ) × ℤ)
returned size b = some (some b, size)

write_over-put_bytes :
    (bytes block : List ℕ) (size : ℤ)
    → (put_bytes bytes (record { before = []; after = block }) >>= finished size)
      ≡ (write_over bytes block >>= returned size)
unfolding write_over
write_over-put_bytes bytes block size = elim (Bool-cases (leb (length bytes) (length block))) [
  | inl h ↦ rw (put_bytes_lem bytes [] block, h) refl
  | inr h ↦ rw (put_bytes_lem bytes [] block, h) refl
]

-- For pointers that are not null, `RawToBmp`, which writes into the block that it is given byte by
-- byte, does to it what `encode_bmp` does to one of its own, and returns the size that that one
-- reports; it is undefined where that one is and where the block is too short.
pub raw_to_bmp-encode_bmp :
    (long : ℕ) (buff block : List ℕ) (width height : ℕ)
    → raw_to_bmp long (some buff) (some block) width height ≡ (
        encode_bmp long true buff width height >>= λ r.
        write_over r.0 block >>= λ b. some (some b, pos r.1))
unfolding raw_to_bmp encode_bmp write_file_header head_bytes memory_of
raw_to_bmp-encode_bmp long buff block width height =
    let size = 1078 + width * height in
    elim (Bool-cases (ltb size (2 ^ 31))) [
      | inr h ↦ rw h refl
      | inl h ↦
          let z : (size == 0) ≡ false = ground arith in
          let bmfh : FileHeader = record {
            bf_type = 19778;
            bf_size = size;
            bf_reserved1 = 0;
            bf_reserved2 = 0;
            bf_off_bits = 1078;
          } in
          let a = take file_head_size (file_header_bytes long bmfh) in
          let b = take info_head_size (info_header_bytes long (write_info_header width height)) in
          let d = take clr_table_size (grey_levels 256 0) in
          let q =
            writes-put_bytes buff width height (finished (pos size)) a b d
              (record { before = []; after = block }) in
          elim (Option-cases (copy_rows buff width height)) [
            | inl i ↦
                rw (h, z, i)
                  (q
                    ∙ ap
                        (◌>>= λ rows.
                          put_bytes ((a ++ (b ++ d)) ++ rows)
                            (record { before = []; after = block })
                          >>= finished (pos size))
                        i)
            | inr (rows, i) ↦
                rw (h, z, i)
                  (q
                    ∙ ap
                        (◌>>= λ rows.
                          put_bytes ((a ++ (b ++ d)) ++ rows)
                            (record { before = []; after = block })
                          >>= finished (pos size))
                        i
                    ∙ write_over-put_bytes ((a ++ (b ++ d)) ++ rows) block (pos size))
          ]
    ]
