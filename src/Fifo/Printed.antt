-- ===== src/Fifo/Printed.antt =====
-- What the thread of Tools/src/Ipc.cpp prints.
use network_structure.Prelude.{ℕ, some, List, [], ◌∷◌, take}
use network_structure.Fifo.{Fifo, input, FifoPoll, clear_block, c_string}
use network_structure.Prelude.Int.{ℤ}

-- The texts due: of the first 512 bytes that each read finds, but for an empty one, those before
-- the first 0.
abbrev pub messages : List FifoPoll → List (List ℕ)
messages [] = []
messages (input [] ∷ ps) = messages ps
messages (input (b ∷ bs) ∷ ps) = c_string (take 512 (b ∷ bs)) ∷ messages ps
messages (_ ∷ ps) = messages ps

-- A pipe whose buffer is clear.
abbrev clear_fifo : ℕ → ℤ → List (List ℕ) → Fifo
clear_fifo len fd old = record {
  ipc_buf = some (clear_block len);
  pipe_fd = fd;
  buf_len = len;
  printed = old;
}
