-- ===== src/Bmp/RoundTrip.antt =====
-- The headers that `encode_bmp` of Tools/src/bmp.cpp writes, as ReadFileHeader and ReadInfoHeader
-- read them, where an `unsigned long` has four bytes.
use mathlib.Core.List.{append_assoc}
use network_structure.Prelude.{
  ℕ, zero, suc, ◌+◌, ◌*◌, ◌^◌, ◌≤◌, ◌<◌, ◌≡◌, refl, sym, ap, ◌∙◌, true, some, List, [], ◌∷◌, ◌++◌,
  arith, length, take, drop,
}
use network_structure.Bmp.{
  info_header_bytes, write_file_header, write_info_header, encode_bmp, grey_levels, clr_table_size,
  head_bytes, FileHeader, InfoHeader, file_header_bytes,
}
use network_structure.Bmp.Read.{read_info_header, read_file_header}
use network_structure.Bmp.Rows.{copy_rows_lem}
use network_structure.Bmp.Bytes.{drop-length_append, bytes_of, fread-bytes_of}

record FileFits (long : ℕ) (b : FileHeader) : Type 0 where
  bf_type : b.bf_type < 256 ^ 2
  bf_size : b.bf_size < 256 ^ long
  bf_reserved1 : b.bf_reserved1 < 256 ^ 2
  bf_reserved2 : b.bf_reserved2 < 256 ^ 2
  bf_off_bits : b.bf_off_bits < 256 ^ long

record InfoFits (long : ℕ) (c : InfoHeader) : Type 0 where
  bi_size : c.bi_size < 256 ^ long
  bi_width : c.bi_width < 256 ^ long
  bi_height : c.bi_height < 256 ^ long
  bi_planes : c.bi_planes < 256 ^ 2
  bi_bit_count : c.bi_bit_count < 256 ^ 2
  bi_compression : c.bi_compression < 256 ^ long
  bi_size_image : c.bi_size_image < 256 ^ long
  bi_x_pels_per_meter : c.bi_x_pels_per_meter < 256 ^ long
  bi_y_pels_per_meter : c.bi_y_pels_per_meter < 256 ^ long
  bi_clr_used : c.bi_clr_used < 256 ^ long
  bi_clr_important : c.bi_clr_important < 256 ^ long

drop_head : (xs ys : List ℕ) → length xs ≡ 14 → drop 14 (xs ++ ys) ≡ ys
drop_head xs ys h = ap (λ t. drop t (xs ++ ys)) (sym h) ∙ drop-length_append xs ys

module _ (long : ℕ) where
  file_header_lem :
      (b : FileHeader) (rest : List ℕ)
      → FileFits long b
      → read_file_header long (file_header_bytes long b ++ rest) ≡ some b
  unfolding read_file_header file_header_bytes
  file_header_lem b rest f =
      let r4 = bytes_of long b.bf_off_bits ++ rest in
      let r3 = bytes_of 2 b.bf_reserved2 ++ r4 in
      let r2 = bytes_of 2 b.bf_reserved1 ++ r3 in
      let r1 = bytes_of long b.bf_size ++ r2 in
      simp append_assoc (
        rw (fread-bytes_of 2 b.bf_type r1 f.bf_type) (
          rw (fread-bytes_of long b.bf_size r2 f.bf_size) (
            rw (fread-bytes_of 2 b.bf_reserved1 r3 f.bf_reserved1) (
              rw (fread-bytes_of 2 b.bf_reserved2 r4 f.bf_reserved2)
                (rw (fread-bytes_of long b.bf_off_bits rest f.bf_off_bits) refl)))))

  info_header_lem :
      (c : InfoHeader) (head rest : List ℕ)
      → length head ≡ 14
      → InfoFits long c
      → read_info_header long (head ++ (info_header_bytes long c ++ rest)) ≡ some c
  unfolding read_info_header info_header_bytes
  info_header_lem c head rest h f =
      let r10 = bytes_of long c.bi_clr_important ++ rest in
      let r9 = bytes_of long c.bi_clr_used ++ r10 in
      let r8 = bytes_of long c.bi_y_pels_per_meter ++ r9 in
      let r7 = bytes_of long c.bi_x_pels_per_meter ++ r8 in
      let r6 = bytes_of long c.bi_size_image ++ r7 in
      let r5 = bytes_of long c.bi_compression ++ r6 in
      let r4 = bytes_of 2 c.bi_bit_count ++ r5 in
      let r3 = bytes_of 2 c.bi_planes ++ r4 in
      let r2 = bytes_of long c.bi_height ++ r3 in
      let r1 = bytes_of long c.bi_width ++ r2 in
      rw (drop_head head (info_header_bytes long c ++ rest) h) (
        simp append_assoc (
          rw (fread-bytes_of long c.bi_size r1 f.bi_size) (
            rw (fread-bytes_of long c.bi_width r2 f.bi_width) (
              rw (fread-bytes_of long c.bi_height r3 f.bi_height) (
                rw (fread-bytes_of 2 c.bi_planes r4 f.bi_planes) (
                  rw (fread-bytes_of 2 c.bi_bit_count r5 f.bi_bit_count) (
                    rw (fread-bytes_of long c.bi_compression r6 f.bi_compression) (
                      rw (fread-bytes_of long c.bi_size_image r7 f.bi_size_image) (
                        rw (fread-bytes_of long c.bi_x_pels_per_meter r8 f.bi_x_pels_per_meter) (
                          rw (fread-bytes_of long c.bi_y_pels_per_meter r9 f.bi_y_pels_per_meter) (
                            rw (fread-bytes_of long c.bi_clr_used r10 f.bi_clr_used) (
                              rw (fread-bytes_of long c.bi_clr_important rest f.bi_clr_important)
                                refl))))))))))))

take_full : (n : ℕ) (xs : List ℕ) → length xs ≡ n → take n xs ≡ xs
take_full zero [] h = refl
take_full zero (x ∷ xs) h = absurd (omega (arith, h))
take_full (suc n) [] h = refl
take_full (suc n) (x ∷ xs) h = ap (λ t. x ∷ t) (take_full n xs (omega (arith, h)))

-- Where an `unsigned long` has four bytes, the bitmap fits in an `int`, the block can be had and
-- the buffer holds the pixels, ReadFileHeader and ReadInfoHeader read from the block that
-- `encode_bmp` returns the headers that WriteFileHeader and WriteInfoHeader made.
pub read-encode_bmp :
    (buff : List ℕ) (width height : ℕ)
    → width < 2 ^ 31
    → height < 2 ^ 31
    → 1078 + width * height < 2 ^ 31
    → height * width ≤ length buff
    → (bytes : List ℕ) × (encode_bmp 4 true buff width height ≡ some (bytes, 1078 + width * height))
      × (read_file_header 4 bytes ≡ write_file_header width height)
      × (read_info_header 4 bytes ≡ some (write_info_header width height))
unfolding encode_bmp write_file_header head_bytes write_info_header
read-encode_bmp buff width height i j f g =
    let (rows, e, r) = copy_rows_lem buff width height g in
    let bmfh : FileHeader = record {
      bf_type = 19778;
      bf_size = 1078 + width * height;
      bf_reserved1 = 0;
      bf_reserved2 = 0;
      bf_off_bits = 1078;
    } in
    let bmih = write_info_header width height in
    let file = file_header_bytes 4 bmfh in
    let info = info_header_bytes 4 bmih in
    let colours = take clr_table_size (grey_levels 256 0) in
    let small : FileFits 4 bmfh = record {
      bf_type = omega arith;
      bf_size = omega arith;
      bf_reserved1 = omega arith;
      bf_reserved2 = omega arith;
      bf_off_bits = omega arith;
    } in
    let sizes : InfoFits 4 bmih = record {
      bi_size = omega arith;
      bi_width = omega arith;
      bi_height = omega arith;
      bi_planes = omega arith;
      bi_bit_count = omega arith;
      bi_compression = omega arith;
      bi_size_image = omega arith;
      bi_x_pels_per_meter = omega arith;
      bi_y_pels_per_meter = omega arith;
      bi_clr_used = omega arith;
      bi_clr_important = omega arith;
    } in
    (
      head_bytes 4 bmfh bmih ++ rows,
      ground (arith, e),
      file_header_lem 4 bmfh (info ++ (colours ++ rows)) small ∙ ground (arith, f),
      info_header_lem 4 bmih file (colours ++ rows) refl sizes,
    )
