-- ===== src/FdManager/Tests.antt =====
-- The theorems of the descriptor managers at concrete data.
use network_structure.Prelude.{◌≡◌, some, [], ◌∷◌, arith}
use network_structure.Prelude.Int.{pos}
use network_structure.FdManager.{FdManager, new, delete, get_total_count}
use network_structure.FdManager.Capacity.{insert_all, insert_all-get_val}
use network_structure.FdManager.Counts.{count, calls_refine_counts}
use network_structure.FdManager.Sets.{new_set, creat_manager_set}
use network_structure.FdManager.Sets.Dictionary.{lookup, calls_refine_dictionary}

insert_all-get_val_example : get_total_count (insert_all (new (pos 1)) (pos 7 ∷ pos 8 ∷ [])) ≡ 2
insert_all-get_val_example = (insert_all-get_val 1 (pos 7 ∷ pos 8 ∷ []) (ground arith)).0

-- A manager that holds one descriptor twice.
abbrev twice : FdManager
twice = record { max_size = pos 4; fd_vec = pos 7 ∷ pos 8 ∷ pos 7 ∷ [] }

calls_refine_counts_example : (delete twice (pos 7)).1 ≡ pos 0
unfolding count
calls_refine_counts_example = (calls_refine_counts twice (pos 7)).2

calls_refine_dictionary_example :
    lookup "device" (creat_manager_set (new_set (pos 2)) "device" (pos 4)).0.fd_map
    ≡ some (new (pos 4))
unfolding lookup new_set
calls_refine_dictionary_example =
    (calls_refine_dictionary (new_set (pos 2)) "device" "device" (pos 4) (pos 7)).0
