-- ===== src/Bmp/Read.antt =====
-- The reader of Tools/src/bmp.cpp. A file, which can be opened, is its bytes. The result is the
-- grey levels that it returns with the width, the height and the bits of a pixel. `none` is where
-- the source is undefined: a number is used that the file was too short for, an `int` overflows, or
-- an index is outside the block. A width or height that is negative as an `int` is not modelled,
-- and `none` as well.
use network_structure.Prelude.{
  ℕ, zero, suc, ◌+◌, ◌-◌, ◌*◌, ◌/◌, ◌%◌, ◌^◌, Bool, not, ◌&&◌, Option, none, some, List, [], ◌∷◌,
  ◌++◌, ltb, leb, ◌==◌, if◌then◌else◌, ◌>>=◌, length, get_elem?, take, drop,
}
use network_structure.Bmp.Bytes.{fread}
use network_structure.Bmp.{FileHeader, InfoHeader}

-- The quotients are of `int`s.
unfoldable pub get_line_bytes : ℕ → ℕ → Option ℕ
get_line_bytes width bitcount =
    if ltb bitcount 8
    then (if ltb (width + 7) (2 ^ 31) then some ((width + 7) / 8) else none)
    else (if ltb (width * bitcount + 31) (2 ^ 31)
        then some ((width * bitcount + 31) / 32 * 4)
        else none)

unfoldable pub read_file_header : ℕ → List ℕ → Option FileHeader
unfolding fread
read_file_header long file = do
  t ← fread 2 file
  size ← fread long t.1
  r1 ← fread 2 size.1
  r2 ← fread 2 r1.1
  off ← fread long r2.1
  some (record {
    bf_type = t.0;
    bf_size = size.0;
    bf_reserved1 = r1.0;
    bf_reserved2 = r2.0;
    bf_off_bits = off.0;
  })

-- `fseek(fp,14,SEEK_SET)` comes first.
unfoldable pub read_info_header : ℕ → List ℕ → Option InfoHeader
unfolding fread
read_info_header long file = do
  size ← fread long (drop 14 file)
  width ← fread long size.1
  height ← fread long width.1
  planes ← fread 2 height.1
  bits ← fread 2 planes.1
  compression ← fread long bits.1
  image ← fread long compression.1
  x_pels ← fread long image.1
  y_pels ← fread long x_pels.1
  used ← fread long y_pels.1
  important ← fread long used.1
  some (record {
    bi_size = size.0;
    bi_width = width.0;
    bi_height = height.0;
    bi_planes = planes.0;
    bi_bit_count = bits.0;
    bi_compression = compression.0;
    bi_size_image = image.0;
    bi_x_pels_per_meter = x_pels.0;
    bi_y_pels_per_meter = y_pels.0;
    bi_clr_used = used.0;
    bi_clr_important = important.0;
  })

-- The conversion of a DWORD to an `int` that is not negative.
unfoldable pub int_of : ℕ → Option ℕ
int_of v = if ltb (v % 2 ^ 32) (2 ^ 31) then some (v % 2 ^ 32) else none

-- The bits of a byte from bit `n - 1` down, as levels.
unfoldable pub levels_of : ℕ → ℕ → List ℕ
levels_of zero pixel = []
levels_of (suc n) pixel = (if pixel / 2 ^ n % 2 == 1 then 255 else 0) ∷ levels_of n pixel

-- `shiftbits` at the byte `w` of a line of `line` bytes
unfoldable pub shift_bits : ℕ → ℕ → ℕ → ℕ
shift_bits width line w =
    if not (line * 8 == width) && (w == line - 1) then (width - (line - 1) * 8) % 256 else 8

-- The loops over `w`: for the `n` bytes from `w` on of a line with a bit for each pixel, and for
-- the `n` pixels from `w` on of any other.
unfoldable pub mono_row : List ℕ → ℕ → ℕ → ℕ → ℕ → ℕ → Option (List ℕ)
unfolding levels_of shift_bits
mono_row imgdata width line row zero w = some []
mono_row imgdata width line row (suc n) w = do
  pixel ← get_elem? imgdata (row + w)
  rest ← mono_row imgdata width line row n (w + 1)
  some (levels_of (shift_bits width line w) pixel ++ rest)

unfoldable pub pixel_row : List ℕ → ℕ → ℕ → ℕ → Option (List ℕ)
pixel_row imgdata row zero w = some []
pixel_row imgdata row (suc n) w = do
  pixel ← get_elem? imgdata (row + w * 4)
  rest ← pixel_row imgdata row n (w + 1)
  some (pixel ∷ rest)

-- The loops over `h`, with `n` lines to go, the first of them at `n - 1` lines into the data.
unfoldable pub mono_rows : List ℕ → ℕ → ℕ → ℕ → Option (List ℕ)
unfolding mono_row
mono_rows imgdata width line zero = some []
mono_rows imgdata width line (suc n) = do
  row ← mono_row imgdata width line (line * n) line 0
  rest ← mono_rows imgdata width line n
  some (row ++ rest)

unfoldable pub pixel_rows : List ℕ → ℕ → ℕ → ℕ → Option (List ℕ)
unfolding pixel_row
pixel_rows imgdata width line zero = some []
pixel_rows imgdata width line (suc n) = do
  row ← pixel_row imgdata (line * n) width 0
  rest ← pixel_rows imgdata width line n
  some (row ++ rest)

-- What is returned, and what `img_width`, `img_height` and `bitc` point to.
pub record Image : Type 0 where
  pub raw : Option (List ℕ)
  pub width : ℕ
  pub height : ℕ
  pub bitc : ℕ

-- `raw` holds `width * height` bytes, and a byte outside it is an index out of range.
unfoldable pub fill_raw : ℕ → ℕ → List ℕ → Option (List ℕ)
fill_raw width height levels =
    if ltb (width * height) (2 ^ 31) && leb (length levels) (width * height)
    then some levels
    else none

-- The branch on the bits of a pixel.
unfoldable pub rows_of : List ℕ → ℕ → ℕ → ℕ → ℕ → Option (List ℕ)
unfolding mono_rows pixel_rows
rows_of imgdata width line height bits =
    if bits == 1 then mono_rows imgdata width line height else pixel_rows imgdata width line height

unfoldable pub image_of : ℕ → ℕ → ℕ → Option (List ℕ) → Option Image
image_of width height bits raw = do
  levels ← raw
  some (record { raw = some levels; width = width; height = height; bitc = bits })

-- `ReadPixelData` for a file that can be opened, where malloc(3) gives every block. `failed` says
-- that reading the pixels ends in an error. The size of `imgdata` is an `unsigned long`.
unfoldable pub read_pixel_data : ℕ → Bool → List ℕ → Option Image
unfolding read_file_header read_info_header int_of get_line_bytes rows_of fill_raw image_of
read_pixel_data long failed file = do
  bmfh ← read_file_header long file
  bmih ← read_info_header long file
  width ← int_of bmih.bi_width
  height ← int_of bmih.bi_height
  line ← get_line_bytes width bmih.bi_bit_count
  (if failed
      then some (record { raw = none; width = width; height = height; bitc = bmih.bi_bit_count })
      else image_of width height bmih.bi_bit_count (
          rows_of (take (line * height % 256 ^ long) (drop bmfh.bf_off_bits file)) width line height
            bmih.bi_bit_count
          >>= fill_raw width height))

-- `get_data`, whose array for the name has twenty bytes: a longer name is written outside it, and
-- one of twenty is read past its end. `fopen` gives the file of a name; without one, numbers that
-- are not set are used.
unfoldable pub get_data : ℕ → Bool → (List ℕ → Option (List ℕ)) → List ℕ → Option Image
unfolding read_pixel_data
get_data long failed fopen name =
    if ltb (length name) 20 then (fopen name >>= read_pixel_data long failed) else none
