-- ===== src/Bmp/Writes.antt =====
-- The writes of `RawToBmp` of Tools/src/bmp.cpp through `bmp_ptr`, against lists of bytes.
use mathlib.Core.List.{append_assoc, append-nil}
use network_structure.Prelude.{
  ℕ, zero, suc, ◌+◌, ◌*◌, ◌≡◌, refl, sym, ap, ◌∙◌, fun_ext, inl, inr, Option, none, some, List, [],
  ◌∷◌, ◌++◌, true, false, arith, leb, if◌then◌else◌, ◌>>=◌, Option-cases, length, get_elem?, drop,
}
use network_structure.Bmp.{Cursor, copy_row, copy_rows, poke, put_bytes, put_row, put_rows}

pub bind-none :
    {A B : Type 0} (m : Option A) (f : A → Option B) → ((a : A) → f a ≡ none) → (m >>= f) ≡ none
bind-none none f h = refl
bind-none (some a) f h = h a

bind-bind :
    {A B C : Type 0} (m : Option A) (f : A → Option B) (g : B → Option C)
    → ((m >>= f) >>= g) ≡ (m >>= λ a. f a >>= g)
bind-bind none f g = refl
bind-bind (some a) f g = refl

put_bytes-append :
    (xs ys : List ℕ) (c : Cursor) → put_bytes (xs ++ ys) c ≡ (put_bytes xs c >>= put_bytes ys)
unfolding put_bytes
put_bytes-append [] ys c = refl
put_bytes-append (x ∷ xs) ys c =
    ap (◌>>=◌ (poke x c.before c.after)) (fun_ext (put_bytes-append xs ys))
    ∙ sym (bind-bind (poke x c.before c.after) (put_bytes xs) (put_bytes ys))

-- Two copies, one behind the other, are one copy.
pub put_bytes-then :
    {B : Type 0} (xs ys : List ℕ) (c : Cursor) (k : Cursor → Option B)
    → (put_bytes (xs ++ ys) c >>= k) ≡ (put_bytes xs c >>= λ d. put_bytes ys d >>= k)
put_bytes-then xs ys c k =
    ap (◌>>= k) (put_bytes-append xs ys c) ∙ bind-bind (put_bytes xs c) (put_bytes ys) k

-- A copy goes through exactly where there is room for it.
pub put_bytes_lem :
    (bs before after : List ℕ)
    → put_bytes bs (record { before = before; after = after }) ≡ (
        if leb (length bs) (length after)
        then some (record { before = before ++ bs; after = drop (length bs) after })
        else none)
unfolding put_bytes poke
put_bytes_lem [] before after =
    let e : leb 0 (length after) ≡ true = ground arith in
    let f : before ++ [] ≡ before = append-nil before in rw (e, f) refl
put_bytes_lem (b ∷ bs) before [] =
    let e : leb (suc (length bs)) 0 ≡ false = ground arith in rw e refl
put_bytes_lem (b ∷ bs) before (x ∷ after) =
    let e : leb (suc (length bs)) (suc (length after)) ≡ leb (length bs) (length after) =
      ground arith in
    rw (put_bytes_lem bs (before ++ b ∷ []) after, append_assoc before (b ∷ []) bs, e) refl

module _ (p_in : List ℕ) where
  put_row_lem :
      (n addr : ℕ) (c : Cursor)
      → put_row p_in n addr c ≡ (copy_row p_in n addr >>= λ bs. put_bytes bs c)
  unfolding put_row copy_row put_bytes
  put_row_lem zero addr c = refl
  put_row_lem (suc n) addr c = elim (Option-cases (get_elem? p_in addr)) [
    | inl e ↦ rw e refl
    | inr (b, e) ↦
        let m = poke b c.before c.after in
        elim (Option-cases (copy_row p_in n (addr + 1))) [
          | inl f ↦
              rw (e, f)
                (bind-none m (put_row p_in n (addr + 1))
                  (λ d. put_row_lem n (addr + 1) d ∙ ap (◌>>= λ bs. put_bytes bs d) f))
          | inr (bs, f) ↦
              rw (e, f)
                (ap (◌>>=◌ m)
                  (fun_ext (λ d. put_row_lem n (addr + 1) d ∙ ap (◌>>= λ t. put_bytes t d) f)))
        ]
  ]

  -- The loops write the lines that `encode_bmp` writes, as far as there is room.
  pub put_rows_lem :
      (width height : ℕ) (c : Cursor)
      → put_rows p_in width height c ≡ (copy_rows p_in width height >>= λ bs. put_bytes bs c)
  unfolding put_rows copy_rows put_bytes
  put_rows_lem width zero c = refl
  put_rows_lem width (suc i) c = elim (Option-cases (copy_row p_in width (i * width))) [
    | inl e ↦
        ap (◌>>= put_rows p_in width i)
          (put_row_lem width (i * width) c ∙ ap (◌>>= λ bs. put_bytes bs c) e)
        ∙ rw e refl
    | inr (row, e) ↦
        let q : put_row p_in width (i * width) c ≡ put_bytes row c =
          put_row_lem width (i * width) c ∙ ap (◌>>= λ bs. put_bytes bs c) e in
        ap (◌>>= put_rows p_in width i) q ∙ elim (Option-cases (copy_rows p_in width i)) [
          | inl f ↦
              rw (e, f)
                (bind-none (put_bytes row c) (put_rows p_in width i)
                  (λ d. put_rows_lem width i d ∙ ap (◌>>= λ bs. put_bytes bs d) f))
          | inr (rows, f) ↦
              rw (e, f)
                (ap (◌>>=◌ (put_bytes row c))
                    (fun_ext (λ d. put_rows_lem width i d ∙ ap (◌>>= λ bs. put_bytes bs d) f))
                  ∙ sym (put_bytes-append row rows c))
        ]
  ]
