-- ===== src/FdManager/Sets.antt =====
-- `FdManagerSet`: managers by name. A `char` pointer that may be null is an `Option String`; the
-- hash table is a list of entries, in the order in which it is walked.
pub mod Dictionary
use Prim.Native.String.{String}
use text.Mathlib.Text.{◌==◌ as str_eq}
use network_structure.Prelude.{Bool, true, false, List, [], ◌∷◌, Option, none, some, if◌then◌else◌}
use network_structure.Prelude.Int.{ℤ, pos, minus_one}
use network_structure.FdManager
use network_structure.FdManager.{FdManager}

pub record FdManagerSet : Type 0 where
  pub max_size : ℤ
  pub fd_map : List (String × FdManager)

unfoldable pub new_set : ℤ → FdManagerSet
new_set num = record { max_size = num; fd_map = [] }

-- `findPair` as a test.
unfoldable pub find_pair : String → List (String × FdManager) → Bool
find_pair name [] = false
find_pair name ((k, m) ∷ rest) = if str_eq k name then true else find_pair name rest

-- The new manager is dropped where the name is taken. The size of the set is not looked at.
unfoldable pub creat_manager_set : FdManagerSet → String → ℤ → FdManagerSet × ℤ
unfolding find_pair
creat_manager_set s name num =
    if find_pair name s.fd_map
    then (s, pos 0)
    else (record s { fd_map = (name, FdManager.new num) ∷ s.fd_map }, pos 0)

unfoldable pub creat_manager_set_ptr : FdManagerSet → Option String → ℤ → FdManagerSet × ℤ
creat_manager_set_ptr s none num = (s, minus_one)
creat_manager_set_ptr s (some name) num = ((creat_manager_set s name num).0, pos 0)

unfoldable pub delete_entries : String → List (String × FdManager) → List (String × FdManager)
delete_entries name [] = []
delete_entries name ((k, m) ∷ rest) =
    let kept = delete_entries name rest in if str_eq k name then kept else (k, m) ∷ kept

unfoldable pub delete_manager_set : FdManagerSet → String → FdManagerSet × ℤ
unfolding delete_entries
delete_manager_set s name = (record s { fd_map = delete_entries name s.fd_map }, pos 0)

unfoldable pub delete_manager_set_ptr : FdManagerSet → Option String → FdManagerSet × ℤ
delete_manager_set_ptr s none = (s, minus_one)
delete_manager_set_ptr s (some name) = ((delete_manager_set s name).0, pos 0)

-- The loop of `insert`: the first entry of that name takes the descriptor.
unfoldable pub insert_entry : String → ℤ → List (String × FdManager) → List (String × FdManager) × ℤ
insert_entry name fd [] = ([], minus_one)
insert_entry name fd ((k, m) ∷ rest) =
    let (rest', r) = insert_entry name fd rest in
    if str_eq k name then ((k, (FdManager.insert m fd).0) ∷ rest, pos 0) else ((k, m) ∷ rest', r)

-- What `FdManager::Insert` returns is not passed on.
unfoldable pub insert_fd : FdManagerSet → String → ℤ → FdManagerSet × ℤ
unfolding insert_entry
insert_fd s name fd =
    let (entries, r) = insert_entry name fd s.fd_map in (record s { fd_map = entries }, r)

unfoldable pub insert_fd_ptr : FdManagerSet → Option String → ℤ → FdManagerSet × ℤ
insert_fd_ptr s none fd = (s, minus_one)
insert_fd_ptr s (some name) fd = insert_fd s name fd
