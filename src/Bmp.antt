-- ===== src/Bmp.antt =====
-- Tools/src/bmp.cpp and Tools/include/bmp.h: the writers of bitmaps with 256 grey levels. `long` is
-- the number of bytes of an `unsigned long`, which is DWORD. The target stores the lowest byte
-- first. A width or height is one that is not negative. `none` is where the source is undefined: an
-- `int` overflows, a null pointer is written, or an index is out of range.
pub mod Bytes
pub mod Rows
pub mod Writes
pub mod Read
mod Layout
mod Pixels
mod RoundTrip
mod Tests
use network_structure.Prelude.{
  ℕ, zero, suc, ◌+◌, ◌*◌, ◌%◌, ◌^◌, Bool, not, ◌&&◌, Option, none, some, List, [], ◌∷◌, ◌++◌, ltb,
  leb, ◌==◌, if◌then◌else◌, ◌>>=◌, length, get_elem?, take, drop,
}
use network_structure.Bmp.Bytes.{bytes_of}
use network_structure.Prelude.Int.{ℤ, pos, minus_one}

-- FILEHEADSIZE, INFOHEADSIZE and `clr_table_size`
abbrev pub file_head_size : ℕ
file_head_size = 14

abbrev pub info_head_size : ℕ
info_head_size = 40

abbrev pub clr_table_size : ℕ
clr_table_size = 256 * 4

pub record FileHeader : Type 0 where
  pub bf_type : ℕ
  pub bf_size : ℕ
  pub bf_reserved1 : ℕ
  pub bf_reserved2 : ℕ
  pub bf_off_bits : ℕ

pub record InfoHeader : Type 0 where
  pub bi_size : ℕ
  pub bi_width : ℕ
  pub bi_height : ℕ
  pub bi_planes : ℕ
  pub bi_bit_count : ℕ
  pub bi_compression : ℕ
  pub bi_size_image : ℕ
  pub bi_x_pels_per_meter : ℕ
  pub bi_y_pels_per_meter : ℕ
  pub bi_clr_used : ℕ
  pub bi_clr_important : ℕ

-- The sum is one of `int`s.
unfoldable pub write_file_header : ℕ → ℕ → Option FileHeader
write_file_header width height =
    let size = file_head_size + info_head_size + clr_table_size + width * height in
    if ltb size (2 ^ 31)
    then some (record {
      bf_type = 19778;
      bf_size = size;
      bf_reserved1 = 0;
      bf_reserved2 = 0;
      bf_off_bits = file_head_size + info_head_size + clr_table_size;
    })
    else none

unfoldable pub write_info_header : ℕ → ℕ → InfoHeader
write_info_header width height = record {
  bi_size = info_head_size;
  bi_width = width;
  bi_height = height;
  bi_planes = 1;
  bi_bit_count = 8;
  bi_compression = 0;
  bi_size_image = 0;
  bi_x_pels_per_meter = 0;
  bi_y_pels_per_meter = 0;
  bi_clr_used = 0;
  bi_clr_important = 0;
}

-- The packed structures as memcpy(3) reads them.
unfoldable pub file_header_bytes : ℕ → FileHeader → List ℕ
unfolding bytes_of
file_header_bytes long h =
    bytes_of 2 h.bf_type
    ++ (bytes_of long h.bf_size
        ++ (bytes_of 2 h.bf_reserved1
            ++ (bytes_of 2 h.bf_reserved2 ++ bytes_of long h.bf_off_bits)))

unfoldable pub info_header_bytes : ℕ → InfoHeader → List ℕ
unfolding bytes_of
info_header_bytes long h =
    bytes_of long h.bi_size
    ++ (bytes_of long h.bi_width
        ++ (bytes_of long h.bi_height
            ++ (bytes_of 2 h.bi_planes
                ++ (bytes_of 2 h.bi_bit_count
                    ++ (bytes_of long h.bi_compression
                        ++ (bytes_of long h.bi_size_image
                            ++ (bytes_of long h.bi_x_pels_per_meter
                                ++ (bytes_of long h.bi_y_pels_per_meter
                                    ++ (bytes_of long h.bi_clr_used
                                        ++ bytes_of long h.bi_clr_important)))))))))

-- `clr_table[i]` for the `n` indices from `i` on
unfoldable pub grey_levels : ℕ → ℕ → List ℕ
grey_levels zero i = []
grey_levels (suc n) i = i % 256 ∷ i % 256 ∷ i % 256 ∷ 0 ∷ grey_levels n (i + 1)

-- The loop over `j`, for the `n` bytes from `addr` on, and the loop over `i` from `height - 1`
-- down.
unfoldable pub copy_row : List ℕ → ℕ → ℕ → Option (List ℕ)
copy_row buff zero addr = some []
copy_row buff (suc n) addr = do
  b ← get_elem? buff addr
  bs ← copy_row buff n (addr + 1)
  some (b ∷ bs)

unfoldable pub copy_rows : List ℕ → ℕ → ℕ → Option (List ℕ)
unfolding copy_row
copy_rows buff width zero = some []
copy_rows buff width (suc i) = do
  row ← copy_row buff width (i * width)
  rows ← copy_rows buff width i
  some (row ++ rows)

-- What `encode_bmp` copies out before the pixels.
unfoldable pub head_bytes : ℕ → FileHeader → InfoHeader → List ℕ
unfolding file_header_bytes info_header_bytes grey_levels
head_bytes long bmfh bmih =
    take file_head_size (file_header_bytes long bmfh)
    ++ (take info_head_size (info_header_bytes long bmih)
        ++ take clr_table_size (grey_levels 256 0))

-- The block that is returned and `*size`. `room` says whether malloc(3) gives it: its null pointer
-- is not below 0, so it is written. Without a size the block is not set.
unfoldable pub encode_bmp : ℕ → Bool → List ℕ → ℕ → ℕ → Option (List ℕ × ℕ)
unfolding write_file_header write_info_header head_bytes copy_rows
encode_bmp long room buff width height = do
  bmfh ← write_file_header width height
  rows ← copy_rows buff width height
  (if not (bmfh.bf_size == 0) && room
      then some (head_bytes long bmfh (write_info_header width height) ++ rows, bmfh.bf_size)
      else none)

-- Bytes written from the start of a block on.
unfoldable pub write_over : List ℕ → List ℕ → Option (List ℕ)
write_over bytes block =
    if leb (length bytes) (length block) then some (bytes ++ drop (length bytes) block) else none

-- A null pointer is `none`, and has no byte to read.
unfoldable pub memory_of : Option (List ℕ) → List ℕ
memory_of none = []
memory_of (some bytes) = bytes

-- The block behind `pOut`, in two parts at `bmp_ptr`.
pub record Cursor : Type 0 where
  pub before : List ℕ
  pub after : List ℕ

-- `*(bmp_ptr++) = b`; `none` at the end of the block.
unfoldable pub poke : ℕ → List ℕ → List ℕ → Option Cursor
poke b before [] = none
poke b before (x ∷ after) = some (record { before = before ++ b ∷ []; after = after })

-- The copy of bytes to `bmp_ptr`, which moves behind them.
unfoldable pub put_bytes : List ℕ → Cursor → Option Cursor
unfolding poke
put_bytes [] c = some c
put_bytes (b ∷ bs) c = poke b c.before c.after >>= put_bytes bs

-- The loops of `RawToBmp`: over `j`, from `pIn[addr]` on for `n` more pixels, and over `i`.
unfoldable pub put_row : List ℕ → ℕ → ℕ → Cursor → Option Cursor
unfolding poke
put_row p_in zero addr c = some c
put_row p_in (suc n) addr c = do
  b ← get_elem? p_in addr
  d ← poke b c.before c.after
  put_row p_in n (addr + 1) d

unfoldable pub put_rows : List ℕ → ℕ → ℕ → Cursor → Option Cursor
unfolding put_row
put_rows p_in width zero c = some c
put_rows p_in width (suc i) c = put_row p_in width (i * width) c >>= put_rows p_in width i

-- The block `pOut` after the call and the result, which is -1 where both pointers are null.
unfoldable pub raw_to_bmp :
    ℕ → Option (List ℕ) → Option (List ℕ) → ℕ → ℕ → Option (Option (List ℕ) × ℤ)
unfolding write_file_header write_info_header file_header_bytes info_header_bytes grey_levels
    put_bytes put_rows memory_of
raw_to_bmp long none none width height = some (none, minus_one)
raw_to_bmp long (some p_in) none width height = none
raw_to_bmp long p_in (some p_out) width height = do
  bmfh ← write_file_header width height
  c1 ←
      put_bytes (take file_head_size (file_header_bytes long bmfh))
        (record { before = []; after = p_out })
  c2 ← put_bytes (take info_head_size (info_header_bytes long (write_info_header width height))) c1
  c3 ← put_bytes (take clr_table_size (grey_levels 256 0)) c2
  c4 ← put_rows (memory_of p_in) width height c3
  some (some (c4.before ++ c4.after), if bmfh.bf_size == 0 then pos 0 else pos bmfh.bf_size)
