-- ===== src/FdManager.antt =====
-- Network/src/FdManager.cpp and FdManager.h: a bounded vector of file descriptors (`FdManager`),
-- and a dictionary of such vectors by name (`Sets`). `size_t` and `int` are compared the way C++
-- does it, after the conversion of the `int`. What the methods print is left out.
pub mod Capacity
pub mod Counts
pub mod Sets
mod Tests
use network_structure.Prelude.{
  ℕ, suc, ◌-◌, ◌^◌, Bool, true, false, List, [], ◌∷◌, ◌++◌, Option, length, get_elem?, leb,
  if◌then◌else◌,
}
use network_structure.Prelude.Int.{ℤ, pos, negsuc, minus_one, eq_ℤ}

pub record FdManager : Type 0 where
  pub max_size : ℤ
  pub fd_vec : List ℤ

-- The conversion of an `int` to `size_t`.
abbrev pub to_size : ℤ → ℕ
to_size (pos n) = n
to_size (negsuc n) = 2 ^ 64 - suc n

-- `std::find` as a test, and `erase` at the position that it finds.
unfoldable pub mem_fd : ℤ → List ℤ → Bool
mem_fd fd [] = false
mem_fd fd (x ∷ xs) = if eq_ℤ x fd then true else mem_fd fd xs

unfoldable pub erase_first : ℤ → List ℤ → List ℤ
erase_first fd [] = []
erase_first fd (x ∷ xs) = if eq_ℤ x fd then xs else x ∷ erase_first fd xs

unfoldable pub new : ℤ → FdManager
new num = record { max_size = num; fd_vec = [] }

-- The guard is `<=`.
unfoldable pub insert : FdManager → ℤ → FdManager × ℤ
insert m fd =
    if leb (length m.fd_vec) (to_size m.max_size)
    then (record m { fd_vec = m.fd_vec ++ fd ∷ [] }, pos 0)
    else (m, minus_one)

unfoldable pub delete : FdManager → ℤ → FdManager × ℤ
unfolding mem_fd erase_first
delete m fd =
    if mem_fd fd m.fd_vec
    then (record m { fd_vec = erase_first fd m.fd_vec }, pos 0)
    else (m, minus_one)

-- `return *iter`, which is the descriptor that was looked for.
unfoldable pub find : FdManager → ℤ → ℤ
unfolding mem_fd
find m fd = if mem_fd fd m.fd_vec then fd else minus_one

unfoldable pub clear_all : FdManager → FdManager
clear_all m = record m { fd_vec = [] }

-- `fdVec_[num]`; `none` where the index is out of range and the source is undefined.
unfoldable pub get_val : FdManager → ℕ → Option ℤ
get_val m num = get_elem? m.fd_vec num

unfoldable pub get_total_count : FdManager → ℕ
get_total_count m = length m.fd_vec
