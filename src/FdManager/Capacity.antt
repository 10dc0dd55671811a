-- ===== src/FdManager/Capacity.antt =====
-- How many descriptors an `FdManager` takes.
use network_structure.Prelude.{
  ℕ, ◌+◌, ◌≤◌, ◌≡◌, refl, arith, List, [], ◌∷◌, ◌++◌, length, get_elem?, length-append,
}
use mathlib.Core.List.{append_assoc, append-nil}
use network_structure.Prelude.Int.{ℤ, pos, minus_one}
use network_structure.FdManager.{
  FdManager, new, insert, delete, clear_all, get_total_count, get_val, erase_first,
}

-- The calls that change the vector.
pub data Op : Type 0 where
  inserts deletes : ℤ → Op
  clears : Op

pub apply : FdManager → Op → FdManager
apply m (inserts fd) = (insert m fd).0
apply m (deletes fd) = (delete m fd).0
apply m clears = clear_all m

pub run : FdManager → List Op → FdManager
run m [] = m
run m (o ∷ os) = run (apply m o) os

record Bounded (n : ℕ) (m : FdManager) : Type 0 where
  size : m.max_size ≡ pos n
  few : length m.fd_vec ≤ n + 1

pub length-erase_first-le : (fd : ℤ) (xs : List ℤ) → length (erase_first fd xs) ≤ length xs
unfolding erase_first
length-erase_first-le fd [] = omega arith
length-erase_first-le fd (x ∷ xs) = ground (arith, length-erase_first-le fd xs)

apply-Bounded : (n : ℕ) (m : FdManager) (o : Op) → Bounded n m → Bounded n (apply m o)
unfolding apply insert delete clear_all
apply-Bounded n m (inserts fd) b = ground (arith, length-append m.fd_vec (fd ∷ []))
apply-Bounded n m (deletes fd) b = ground (arith, length-erase_first-le fd m.fd_vec)
apply-Bounded n m clears b = ground arith

run-Bounded : (n : ℕ) (m : FdManager) (os : List Op) → Bounded n m → Bounded n (run m os)
unfolding run
run-Bounded n m [] b = b
run-Bounded n m (o ∷ os) b = run-Bounded n (apply m o) os (apply-Bounded n m o b)

-- After any history of calls on a manager for `n` descriptors it holds at most `n` + 1 of them.
pub count_bounded : (n : ℕ) (os : List Op) → get_total_count (run (new (pos n)) os) ≤ n + 1
unfolding get_total_count new
count_bounded n os =
    (run-Bounded n (new (pos n)) os (record { size = refl; few = omega arith })).few

-- Insert one descriptor after the other.
pub insert_all : FdManager → List ℤ → FdManager
insert_all m [] = m
insert_all m (fd ∷ fds) = insert_all (insert m fd).0 fds

insert_all-append :
    (n : ℕ) (old fds : List ℤ)
    → length old + length fds ≤ n + 1
    → insert_all (record { max_size = pos n; fd_vec = old }) fds
      ≡ record { max_size = pos n; fd_vec = old ++ fds }
unfolding insert_all insert
insert_all-append n old [] h = ground (arith, append-nil old)
insert_all-append n old (fd ∷ fds) h = ground (
  arith,
  append_assoc old (fd ∷ []) fds,
  insert_all-append n (old ++ fd ∷ []) fds,
  length-append old (fd ∷ []),
)

-- A manager for `n` descriptors takes any list of up to `n` + 1 of them, one more than its size,
-- and `get_val` gives each back at its place; after exactly `n` + 1 the next one is refused.
pub insert_all-get_val :
    (n : ℕ) (fds : List ℤ)
    → length fds ≤ n + 1
    → (get_total_count (insert_all (new (pos n)) fds) ≡ length fds)
      × ((i : ℕ) → get_val (insert_all (new (pos n)) fds) i ≡ get_elem? fds i)
      × (length fds ≡ n + 1
          → (fd : ℤ)
          → insert (insert_all (new (pos n)) fds) fd ≡ (insert_all (new (pos n)) fds, minus_one))
unfolding get_total_count get_val new insert
insert_all-get_val n fds h =
    rw (insert_all-append n [] fds (omega arith)) (refl, λ i. refl, λ e fd. ground arith)
