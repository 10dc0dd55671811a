-- ===== src/Fifo/Tests.antt =====
-- The pipe with a name at concrete data.
use network_structure.Prelude.{true, false}
use network_structure.Prelude.Int.{pos}
use network_structure.Fifo.{FifoEnv}

abbrev new_node : FifoEnv
new_node = record { node_exists = false; makes_node = true; opened = pos 3 }
