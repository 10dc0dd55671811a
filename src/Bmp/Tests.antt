-- ===== src/Bmp/Tests.antt =====
-- Small bitmaps through the writers and the reader of Tools/src/bmp.cpp.
use network_structure.Bmp.{
  grey_levels, write_info_header, pos, write_file_header, info_header_bytes, write_over, FileHeader,
  InfoHeader, encode_bmp, file_header_bytes, raw_to_bmp,
}
use network_structure.Prelude.{
  ℕ, suc, ◌+◌, ◌*◌, ◌<◌, ◌≡◌, refl, true, false, none, some, List, [], ◌∷◌, ◌++◌, arith, ◌>>=◌,
  length, get_elem?, take,
}
use network_structure.Bmp.RoundTrip.{read-encode_bmp}
use network_structure.Bmp.Layout.{raw_to_bmp-encode_bmp, encode_bmp-flips}
use network_structure.Bmp.Pixels.{Header, read_pixel_data-thirty_two, read_pixel_data-eight}
use network_structure.Bmp.Read.{read_info_header, read_file_header, read_pixel_data}

abbrev six : List ℕ
six = 1 ∷ 2 ∷ 3 ∷ 4 ∷ 5 ∷ 6 ∷ []

abbrev file_header : FileHeader
file_header = record {
  bf_type = 19778;
  bf_size = 62;
  bf_reserved1 = 0;
  bf_reserved2 = 0;
  bf_off_bits = 54;
}

abbrev info_header : ℕ → ℕ → ℕ → InfoHeader
info_header width height bits = record {
  bi_size = 40;
  bi_width = width;
  bi_height = height;
  bi_planes = 1;
  bi_bit_count = bits;
  bi_compression = 0;
  bi_size_image = 0;
  bi_x_pels_per_meter = 0;
  bi_y_pels_per_meter = 0;
  bi_clr_used = 0;
  bi_clr_important = 0;
}

-- A bitmap of one pixel a line and of two lines with 32 bits a pixel, one of two pixels a line and
-- one line with 8 bits, and one of ten pixels and one line with 1 bit.
abbrev deep_file : List ℕ
deep_file =
    file_header_bytes 4 file_header
    ++ (info_header_bytes 4 (info_header 1 2 32) ++ (7 ∷ 0 ∷ 0 ∷ 0 ∷ 9 ∷ 0 ∷ 0 ∷ 0 ∷ []))

abbrev grey_file : List ℕ
grey_file =
    file_header_bytes 4 file_header
    ++ (info_header_bytes 4 (info_header 2 1 8) ++ (7 ∷ 9 ∷ 0 ∷ 0 ∷ []))

abbrev mono_file : List ℕ
mono_file =
    file_header_bytes 4 file_header ++ (info_header_bytes 4 (info_header 10 1 1) ++ (240 ∷ 65 ∷ []))

-- The last byte gives its low bits.
mono_read :
    read_pixel_data 4 false mono_file
    ≡ some (record {
      raw = some (255 ∷ 255 ∷ 255 ∷ 255 ∷ 0 ∷ 0 ∷ 0 ∷ 0 ∷ 0 ∷ 255 ∷ []);
      width = 10;
      height = 1;
      bitc = 1;
    })
unfolding read_pixel_data file_header_bytes info_header_bytes
mono_read = refl

deep_read :
    read_pixel_data 4 false deep_file
    ≡ some (record { raw = some (9 ∷ 7 ∷ []); width = 1; height = 2; bitc = 32 })
unfolding read_pixel_data file_header_bytes info_header_bytes
deep_read = refl

-- With an `unsigned long` of eight bytes the offset of the pixels is not among the first 14.
offset_cut :
    take 14 (file_header_bytes 8 file_header)
    ≡ 66 ∷ 77 ∷ 62 ∷ 0 ∷ 0 ∷ 0 ∷ 0 ∷ 0 ∷ 0 ∷ 0 ∷ 0 ∷ 0 ∷ 0 ∷ 0 ∷ []
unfolding file_header_bytes
offset_cut = refl

deep_Header : Header 4 deep_file 1 2 32 54
unfolding file_header_bytes info_header_bytes read_file_header read_info_header
deep_Header = record {
  bmfh = file_header;
  bmih = info_header 1 2 32;
  file_read = refl;
  info_read = refl;
  off_is = refl;
  width_is = refl;
  height_is = refl;
  bits_is = refl;
  width_small = omega arith;
  height_small = omega arith;
}

grey_Header : Header 4 grey_file 2 1 8 54
unfolding file_header_bytes info_header_bytes read_file_header read_info_header
grey_Header = record {
  bmfh = file_header;
  bmih = info_header 2 1 8;
  file_read = refl;
  info_read = refl;
  off_is = refl;
  width_is = refl;
  height_is = refl;
  bits_is = refl;
  width_small = omega arith;
  height_small = omega arith;
}

encode_bmp-flips_example :
    (bytes : List ℕ) × (encode_bmp 8 true six 3 2 ≡ some (bytes, 1084))
    × (length bytes ≡ 1084)
    × ((i k j : ℕ)
        → i + suc k ≡ 2
        → j < 3
        → get_elem? bytes (1078 + (k * 3 + j)) ≡ get_elem? six (i * 3 + j))
encode_bmp-flips_example = encode_bmp-flips 8 (omega arith) six 3 2 (omega arith) (omega arith)

raw_to_bmp-encode_bmp_example : raw_to_bmp 4 (some six) (some (grey_levels 300 0)) 3 2 ≡ (
    encode_bmp 4 true six 3 2 >>= λ r.
    write_over r.0 (grey_levels 300 0) >>= λ b. some (some b, pos r.1))
raw_to_bmp-encode_bmp_example = raw_to_bmp-encode_bmp 4 six (grey_levels 300 0) 3 2

read-encode_bmp_example :
    (bytes : List ℕ) × (encode_bmp 4 true six 3 2 ≡ some (bytes, 1084))
    × (read_file_header 4 bytes ≡ write_file_header 3 2)
    × (read_info_header 4 bytes ≡ some (write_info_header 3 2))
read-encode_bmp_example =
    read-encode_bmp six 3 2 (omega arith) (omega arith) (omega arith) (omega arith)

read_pixel_data-thirty_two_example :
    (levels : List ℕ) × (read_pixel_data 4 false deep_file
      ≡ some (record { raw = some levels; width = 1; height = 2; bitc = 32 }))
    × (length levels ≡ 2)
    × ((i k j : ℕ)
        → i + suc k ≡ 2
        → j < 1
        → get_elem? levels (k * 1 + j) ≡ get_elem? deep_file (54 + (4 * i + j * 4)))
unfolding file_header_bytes info_header_bytes
read_pixel_data-thirty_two_example =
    read_pixel_data-thirty_two 4 1 2 54 deep_file deep_Header (omega arith) (omega arith)
      (omega arith) (omega arith)

read_pixel_data-eight_example : read_pixel_data 4 false grey_file ≡ none
read_pixel_data-eight_example = read_pixel_data-eight 4 0 0 54 grey_file grey_Header (omega arith)
