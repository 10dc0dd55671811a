-- ===== src/FdManager/Counts.antt =====
-- The vector seen as a multiset: how often each descriptor is in it.
use network_structure.Prelude.{
  ℕ, ◌+◌, ◌≡◌, refl, arith, true, List, [], ◌∷◌, ◌++◌, if◌then◌else◌, ◌&&◌, ltb, Bool-cases, inl,
  inr,
}
use network_structure.Prelude.Int.{ℤ, pos, minus_one, eq_ℤ, eq_ℤ_iff}
use network_structure.FdManager.{FdManager, insert, delete, find, mem_fd, erase_first}

unfoldable pub count : ℤ → List ℤ → ℕ
count x [] = 0
count x (y ∷ ys) = (if eq_ℤ y x then 1 else 0) + count x ys

count-append : (x : ℤ) (xs ys : List ℤ) → count x (xs ++ ys) ≡ count x xs + count x ys
unfolding count
count-append x [] ys = omega arith
count-append x (z ∷ xs) ys = omega (arith, count-append x xs ys)

count-one : (x fd : ℤ) → count x (fd ∷ []) ≡ (if eq_ℤ fd x then 1 else 0)
unfolding count
count-one x fd = ground arith

mem_fd-count : (x : ℤ) (xs : List ℤ) → mem_fd x xs ≡ ltb 0 (count x xs)
unfolding mem_fd count
mem_fd-count x [] = refl
mem_fd-count x (y ∷ ys) = ground (arith, mem_fd-count x ys)

count-erase_first :
    (x fd : ℤ) (xs : List ℤ)
    → mem_fd fd xs ≡ true
    → count x (erase_first fd xs) + (if eq_ℤ fd x then 1 else 0) ≡ count x xs
unfolding mem_fd erase_first count
count-erase_first x fd [] h = ground arith
count-erase_first x fd (y ∷ ys) h = elim (Bool-cases (eq_ℤ y fd)) [
  | inl hit ↦ let e : y ≡ fd = (eq_ℤ_iff y fd).0 hit in ground arith
  | inr miss ↦ ground (arith, count-erase_first x fd ys)
]

-- Each call against the multiset of descriptors. A successful `insert` adds one copy of the
-- descriptor and a refused one changes nothing; `delete` takes one copy away exactly when there is
-- one; `find` gives the descriptor back exactly when there is a copy, and -1 otherwise.
pub calls_refine_counts :
    (m : FdManager) (fd : ℤ)
    → ((x : ℤ)
        → count x (insert m fd).0.fd_vec
          ≡ count x m.fd_vec + (if eq_ℤ (insert m fd).1 (pos 0) && eq_ℤ fd x then 1 else 0))
      × ((x : ℤ)
          → count x (delete m fd).0.fd_vec
              + (if ltb 0 (count fd m.fd_vec) && eq_ℤ fd x then 1 else 0)
            ≡ count x m.fd_vec)
      × ((delete m fd).1 ≡ (if ltb 0 (count fd m.fd_vec) then pos 0 else minus_one))
      × (find m fd ≡ (if ltb 0 (count fd m.fd_vec) then fd else minus_one))
unfolding insert delete find
calls_refine_counts m fd = (
  λ x. ground (arith, count-append x m.fd_vec (fd ∷ []), count-one x fd),
  λ x. ground (arith, mem_fd-count fd m.fd_vec, count-erase_first x fd m.fd_vec),
  ground (arith, mem_fd-count fd m.fd_vec),
  ground (arith, mem_fd-count fd m.fd_vec),
)
