-- ===== src/TcpServerSocket/Image.antt =====
-- The frame of an image of Network/src/TcpServerSocket.cpp: `SendPgmImage` and what it calls. The
-- digits of `%d` are a parameter; `comment` is a string, so it holds no 0. Writing beyond the 2048
-- characters of `hdr` is undefined, `none`. `size` is not negative.
use network_structure.Prelude.{
  ℕ, ◌+◌, ◌-◌, ◌/◌, ◌%◌, ◌^◌, ◌<◌, ◌≡◌, refl, ap, ◌∙◌, inl, inr, true, Option, none, some, List, [],
  ◌∷◌, ◌++◌, arith, ltb, leb, if◌then◌else◌, Bool-cases, ◌>>=◌, length, take, drop, length-append,
  take_all,
}
use network_structure.Bmp.Bytes.{drop-length_append, take-length_append, value_of}
use network_structure.Prelude.Int.{pos, minus_one, ℤ}
use network_structure.TcpServerSocket.{sends, does, Net, SocketEnv}

-- `SocketWrite`
unfoldable pub socket_write : SocketEnv → List ℕ → Net → Net × ℤ
socket_write env bytes n =
    let sent = does (sends n.endpoint.conn_fd bytes) n in
    if env.send_fails sent.calls then (sent, minus_one) else (sent, pos 0)

-- `LittleEndien4bytes` and `LittleEndien2bytes`: what they leave at the pointer.
unfoldable pub little_endian_4 : ℕ → List ℕ
little_endian_4 x =
    let x1 = x / 256 in
    let x2 = x1 / 256 in let x3 = x2 / 256 in x % 256 ∷ x1 % 256 ∷ x2 % 256 ∷ x3 % 256 ∷ []

unfoldable pub little_endian_2 : ℕ → List ℕ
little_endian_2 x = let x1 = x / 256 in x % 256 ∷ x1 % 256 ∷ []

module _ (digits : ℕ → List ℕ) where
  -- "IMGSHP2P0L", "R" and "B0T0M8D10S6F\x1F" with the width and the height between them, the
  -- comment and "\x1d", after "\x16\xfe....\r".
  unfoldable pub pgm_text : ℕ → ℕ → List ℕ → List ℕ
  pgm_text x y comment =
      22 ∷ 254 ∷ 46 ∷ 46 ∷ 46 ∷ 46 ∷ 13 ∷ 73 ∷ 77 ∷ 71 ∷ 83 ∷ 72 ∷ 80 ∷ 50 ∷ 80 ∷ 48 ∷ 76 ∷ digits x
      ++ 82 ∷ digits y
      ++ 66 ∷ 48 ∷ 84 ∷ 48 ∷ 77 ∷ 56 ∷ 68 ∷ 49 ∷ 48 ∷ 83 ∷ 54 ∷ 70 ∷ 31 ∷ comment
      ++ 29 ∷ []

  -- `hdr` as it is sent; the sum is that of `unsigned int`.
  unfoldable pub pgm_header : ℕ → ℕ → ℕ → List ℕ → Option (List ℕ)
  unfolding pgm_text little_endian_4
  pgm_header x y size comment =
      let text = pgm_text x y comment in
      let total = (length text + 2 ^ 32 - 7 + size) % 2 ^ 32 in
      if ltb (length text) 2048
      then some (take 2 text ++ little_endian_4 total ++ drop 6 text)
      else none

  unfoldable pub send_pgm_header : SocketEnv → ℕ → ℕ → ℕ → List ℕ → Net → Option Net
  unfolding pgm_header socket_write
  send_pgm_header env x y size comment n =
      pgm_header x y size comment >>= λ hdr. some (socket_write env hdr n).0

  -- The result of the first write is not tested.
  unfoldable pub send_pgm_image : SocketEnv → ℕ → ℕ → ℕ → List ℕ → List ℕ → Net → Option Net
  unfolding send_pgm_header
  send_pgm_image env x y size img comment n =
      send_pgm_header env x y size comment n >>= λ n1. some (socket_write env (take size img) n1).0

-- What a receiver does with the stream: it skips two bytes, reads the length and, after one byte
-- more, takes as many bytes; `none` where there are not as many. What follows is left.
unfoldable pub read_frame : List ℕ → Option (List ℕ × List ℕ)
unfolding value_of
read_frame (a ∷ b ∷ l0 ∷ l1 ∷ l2 ∷ l3 ∷ r ∷ rest) =
    let n = value_of (l0 ∷ l1 ∷ l2 ∷ l3 ∷ []) in
    if leb n (length rest) then some (take n rest, drop n rest) else none
read_frame _ = none

little_endian_4-value : (x : ℕ) → x < 2 ^ 32 → value_of (little_endian_4 x) ≡ x
unfolding little_endian_4 value_of
little_endian_4-value x h = omega (arith, h)

read_frame-frame :
    (a b r : ℕ) (payload more : List ℕ)
    → length payload < 2 ^ 32
    → read_frame (a ∷ b ∷ (little_endian_4 (length payload) ++ r ∷ (payload ++ more)))
      ≡ some (payload, more)
unfolding read_frame little_endian_4
read_frame-frame a b r payload more h =
    let enough : leb (length payload) (length (payload ++ more)) ≡ true =
      ground (arith, length-append payload more) in
    rw (little_endian_4-value (length payload) h)
      (rw (enough, take-length_append payload more, drop-length_append payload more) refl)

read_frame-image :
    (body img more : List ℕ)
    → length (body ++ img) < 2 ^ 32
    → read_frame ((22 ∷ 254 ∷ (little_endian_4 (length (body ++ img)) ++ 13 ∷ body)) ++ img ++ more)
      ≡ some (body ++ img, more)
unfolding little_endian_4
read_frame-image body img more h = read_frame-frame 22 254 13 (body ++ img) more h

-- Whether the write went through or not, it was made.
socket_write-does :
    (env : SocketEnv) (bytes : List ℕ) (n : Net)
    → (socket_write env bytes n).0 ≡ does (sends n.endpoint.conn_fd bytes) n
unfolding socket_write
socket_write-does env bytes n =
    elim (Bool-cases (env.send_fails (sends n.endpoint.conn_fd bytes ∷ n.calls))) [
      | inl h ↦ rw h refl
      | inr h ↦ rw h refl
    ]

module _ (digits : ℕ → List ℕ) (env : SocketEnv) (x y size : ℕ) (img comment : List ℕ)
    (n : Net) where
  -- The text behind the length field.
  abbrev pub pgm_body : List ℕ
  pgm_body = drop 7 (pgm_text digits x y comment)

  -- The header as it is sent.
  abbrev pub pgm_frame : List ℕ
  pgm_frame = 22 ∷ 254 ∷ (little_endian_4 (length (pgm_body ++ img)) ++ 13 ∷ pgm_body)

  pgm_text-size : length (pgm_text digits x y comment) ≡ 7 + length pgm_body
  unfolding pgm_text
  pgm_text-size = omega arith

  pgm_header-frame :
      length (pgm_text digits x y comment) < 2048
      → length img ≡ size
      → size < 2 ^ 31
      → pgm_header digits x y size comment ≡ some pgm_frame
  unfolding pgm_header pgm_text
  pgm_header-frame h e l =
      let fits : ltb (length (pgm_text digits x y comment)) 2048 ≡ true = ground (arith, h) in
      let total : (length (pgm_text digits x y comment) + 2 ^ 32 - 7 + size) % 2 ^ 32
          ≡ length (pgm_body ++ img) =
        omega (arith, h, e, l, pgm_text-size, length-append pgm_body img) in
      rw fits (ap (λ t. some (22 ∷ 254 ∷ (little_endian_4 t ++ 13 ∷ pgm_body))) total)

  -- `SendPgmImage` sends a header and then the image on the connection, and a receiver that reads
  -- the length field takes from the two together the rest of the header and the whole image, and
  -- is then at the first byte of what follows, where the header fits its array and the image has
  -- the size that is given and both are shorter than 2^32 bytes.
  pub read_frame-send_pgm_image :
      (more : List ℕ)
      → length (pgm_text digits x y comment) < 2048
      → length img ≡ size
      → size < 2 ^ 31
      → (hdr : List ℕ) × (send_pgm_image digits env x y size img comment n
          ≡ some (does (sends n.endpoint.conn_fd img) (does (sends n.endpoint.conn_fd hdr) n)))
        × (read_frame (hdr ++ img ++ more) ≡ some (pgm_body ++ img, more))
  unfolding send_pgm_image send_pgm_header
  read_frame-send_pgm_image more h e l =
      let whole : take size img ≡ img = take_all size img (omega (arith, e)) in
      let first = does (sends n.endpoint.conn_fd pgm_frame) n in
      (
        pgm_frame,
        rw (pgm_header-frame h e l, whole)
            (ap (λ m. some (socket_write env img m).0) (socket_write-does env pgm_frame n)
              ∙ ap some (socket_write-does env img first)),
        read_frame-image pgm_body img more
            (omega (arith, h, e, l, pgm_text-size, length-append pgm_body img)),
      )
