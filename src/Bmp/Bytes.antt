-- ===== src/Bmp/Bytes.antt =====
-- The bytes of a number of Tools/src/bmp.cpp in memory and in a file, the lowest first.
use network_structure.Prelude.{
  ℕ, zero, suc, ◌+◌, ◌*◌, ◌/◌, ◌%◌, ◌^◌, ◌<◌, ◌≡◌, refl, sym, ap, ◌∙◌, Option, none, some, List, [],
  ◌∷◌, ◌++◌, arith, leb, if◌then◌else◌, length, take, drop, length-append,
}

unfoldable pub bytes_of : ℕ → ℕ → List ℕ
bytes_of zero v = []
bytes_of (suc n) v = v % 256 ∷ bytes_of n (v / 256)

unfoldable pub value_of : List ℕ → ℕ
value_of [] = 0
value_of (b ∷ bs) = b + 256 * value_of bs

-- A `fread` of a number of `n` bytes, with what follows it; `none` where the file is too short,
-- which leaves the number unset.
unfoldable pub fread : ℕ → List ℕ → Option (ℕ × List ℕ)
unfolding value_of
fread n file = if leb n (length file) then some (value_of (take n file), drop n file) else none

pub length-bytes_of : (n v : ℕ) → length (bytes_of n v) ≡ n
unfolding bytes_of
length-bytes_of zero v = refl
length-bytes_of (suc n) v = ap (λ t. suc t) (length-bytes_of n (v / 256))

pub value-bytes_of : (n v : ℕ) → v < 256 ^ n → value_of (bytes_of n v) ≡ v
unfolding bytes_of value_of
value-bytes_of zero v h = omega arith
value-bytes_of (suc n) v h = let r = value-bytes_of n (v / 256) (omega arith) in ground (arith, r)

pub take-length_append : (xs ys : List ℕ) → take (length xs) (xs ++ ys) ≡ xs
take-length_append [] ys = refl
take-length_append (x ∷ xs) ys = ap (λ t. x ∷ t) (take-length_append xs ys)

pub drop-length_append : (xs ys : List ℕ) → drop (length xs) (xs ++ ys) ≡ ys
drop-length_append [] ys = refl
drop-length_append (x ∷ xs) ys = drop-length_append xs ys

fread-append :
    (bytes rest : List ℕ) → fread (length bytes) (bytes ++ rest) ≡ some (value_of bytes, rest)
unfolding fread
fread-append bytes rest =
    let h = length-append bytes rest in
    let e = take-length_append bytes rest in
    let f = drop-length_append bytes rest in ground (arith, h, e, f)

-- What has been written is read back.
pub fread-bytes_of :
    (n v : ℕ) (rest : List ℕ) → v < 256 ^ n → fread n (bytes_of n v ++ rest) ≡ some (v, rest)
fread-bytes_of n v rest h =
    ap (λ t. fread t (bytes_of n v ++ rest)) (sym (length-bytes_of n v))
    ∙ fread-append (bytes_of n v) rest
    ∙ ap (λ t. some (t, rest)) (value-bytes_of n v h)
