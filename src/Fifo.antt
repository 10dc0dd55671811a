-- ===== src/Fifo.antt =====
-- Tools/src/Ipc.cpp: the pipe with a name and the thread that reads it. What poll(2) and read(2)
-- report is a list of `FifoPoll`; a write outside the buffer is undefined, `none`. A pointer that is
-- NULL makes read(2) fail. The members keep the values of their initializers where the constructor
-- returns early.
pub mod Printed
mod Tests
use network_structure.Prelude.{
  ℕ, zero, suc, Bool, Option, none, some, List, [], ◌∷◌, ◌++◌, ltb, ◌==◌, if◌then◌else◌, ◌>>=◌,
  length, take,
}
use network_structure.Prelude.Int.{minus_one, ℤ}

-- `ipc_buf` is `pIpcBuf`, `none` where it is NULL; `printed` has what was printed, oldest first.
pub record Fifo : Type 0 where
  pub ipc_buf : Option (List ℕ)
  pub pipe_fd : ℤ
  pub buf_len : ℕ
  pub printed : List (List ℕ)

pub data FifoPoll : Type 0 where
  poll_failed no_input read_failed : FifoPoll
  input : List ℕ → FifoPoll

-- A block of `n` bytes that is clear.
abbrev pub clear_block : ℕ → List ℕ
clear_block zero = []
clear_block (suc n) = 0 ∷ clear_block n

-- `memset(buf, 0, n)` and a `read` that puts bytes at the front of the buffer.
abbrev pub clear_front : ℕ → List ℕ → List ℕ
clear_front zero buf = buf
clear_front (suc n) [] = []
clear_front (suc n) (x ∷ xs) = 0 ∷ clear_front n xs

abbrev pub put_front : List ℕ → List ℕ → List ℕ
put_front [] buf = buf
put_front (b ∷ bs) [] = []
put_front (b ∷ bs) (x ∷ xs) = b ∷ put_front bs xs

-- What `%s` prints: the bytes before the first 0.
abbrev pub c_string : List ℕ → List ℕ
c_string [] = []
c_string (x ∷ xs) = if 0 == x then [] else x ∷ c_string xs

-- What access(2), mkfifo(3) and open(2) return.
pub record FifoEnv : Type 0 where
  pub node_exists : Bool
  pub makes_node : Bool
  pub opened : ℤ

-- `IPC::IPC`: the buffer is made together with the node.
unfoldable pub new_fifo : FifoEnv → ℕ → Fifo
new_fifo env len =
    if env.node_exists
    then record { ipc_buf = none; pipe_fd = env.opened; buf_len = len; printed = [] }
    else (if env.makes_node
        then record {
          ipc_buf = some (clear_block len);
          pipe_fd = env.opened;
          buf_len = len;
          printed = [];
        }
        else record { ipc_buf = none; pipe_fd = minus_one; buf_len = len; printed = [] })

-- `read(fds.fd, buf, 512)`, what is printed of the buffer if the read was not empty, and the memset
-- of one byte more. Behind the message the buffer is clear, so that a 0 ends the text.
unfoldable pub take_message : List ℕ → List ℕ → Fifo → Option Fifo
take_message bytes buf f =
    let m = take 512 bytes in
    if ltb (length m) (length buf)
    then some (record f {
      ipc_buf = some (clear_front (suc (length m)) (put_front m buf));
      printed = if 0 == length m then f.printed else f.printed ++ c_string (put_front m buf) ∷ [];
    })
    else none

-- A read that fails leaves `len` at -1, so that nothing is cleared.
unfoldable pub fifo_input : List ℕ → Option (List ℕ) → Fifo → Option Fifo
unfolding take_message
fifo_input bytes none f = some f
fifo_input bytes (some buf) f = take_message bytes buf f

-- One round of `IPCThread`.
unfoldable pub fifo_round : FifoPoll → Fifo → Option Fifo
unfolding fifo_input
fifo_round poll_failed f = some f
fifo_round no_input f = some f
fifo_round read_failed f = some f
fifo_round (input bytes) f = fifo_input bytes f.ipc_buf f

-- `IPCThread`, for as many rounds as `exit_thread` lets it make.
unfoldable pub fifo_thread : List FifoPoll → Fifo → Option Fifo
unfolding fifo_round
fifo_thread [] f = some f
fifo_thread (p ∷ ps) f = fifo_round p f >>= fifo_thread ps
