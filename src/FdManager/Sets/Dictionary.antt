-- ===== src/FdManager/Sets/Dictionary.antt =====
-- The dictionary laws of `FdManagerSet`.
use Prim.Native.String.{String}
use text.Mathlib.Text.{◌==◌ as str_eq}
use text.Mathlib.TextEquality.{eq_iff}
use network_structure.Prelude.{
  ◌≡◌, refl, arith, Bool, true, false, List, [], ◌∷◌, Option, none, some, if◌then◌else◌,
}
use network_structure.Prelude.Int.{ℤ, pos, minus_one}
use network_structure.FdManager
use network_structure.FdManager.{FdManager}
use network_structure.FdManager.Sets.{
  FdManagerSet, find_pair, creat_manager_set, delete_entries, delete_manager_set, insert_entry,
  insert_fd,
}

-- The manager of a name.
unfoldable pub lookup : String → List (String × FdManager) → Option FdManager
lookup name [] = none
lookup name ((k, m) ∷ rest) = if str_eq k name then some m else lookup name rest

abbrev pub is_some : Option FdManager → Bool
is_some none = false
is_some (some m) = true

find_pair-lookup :
    (name : String) (es : List (String × FdManager)) → find_pair name es ≡ is_some (lookup name es)
unfolding find_pair lookup
find_pair-lookup name [] = refl
find_pair-lookup name ((k, m) ∷ rest) = ground (arith, find_pair-lookup name rest)

-- The entry that `CreatManagerSet` leaves at a name.
abbrev pub or_new : Option FdManager → ℤ → Option FdManager
or_new none num = some (FdManager.new num)
or_new (some m) num = some m

lookup-delete_entries :
    (name j : String) (es : List (String × FdManager))
    → lookup j (delete_entries name es) ≡ (if str_eq name j then none else lookup j es)
unfolding lookup delete_entries
lookup-delete_entries name j [] = ground arith
lookup-delete_entries name j ((k, m) ∷ rest) =
    ground (arith, eq_iff k name, eq_iff k j, eq_iff name j, lookup-delete_entries name j rest)

abbrev pub insert_into : Option FdManager → ℤ → Option FdManager
insert_into none fd = none
insert_into (some m) fd = some (FdManager.insert m fd).0

lookup-insert_entry :
    (name j : String) (fd : ℤ) (es : List (String × FdManager))
    → (lookup j (insert_entry name fd es).0
        ≡ (if str_eq name j then insert_into (lookup j es) fd else lookup j es))
      × ((insert_entry name fd es).1 ≡ (if is_some (lookup name es) then pos 0 else minus_one))
unfolding lookup insert_entry
lookup-insert_entry name j fd [] = (ground arith, refl)
lookup-insert_entry name j fd ((k, m) ∷ rest) =
    ground (arith, eq_iff k name, eq_iff k j, eq_iff name j, lookup-insert_entry name j fd rest)

-- The set as a dictionary, at every name `j`. `CreatManagerSet` adds an empty manager of the given
-- size where the name is free, keeps the old one where it is taken, and leaves the others alone;
-- `DeleteManagerSet` removes every entry of its name and no other; `insert` passes the descriptor
-- to the manager of that name only, and returns 0 exactly when there is one.
pub calls_refine_dictionary :
    (s : FdManagerSet) (name j : String) (num fd : ℤ)
    → (lookup j (creat_manager_set s name num).0.fd_map
        ≡ (if str_eq name j then or_new (lookup j s.fd_map) num else lookup j s.fd_map))
      × (lookup j (delete_manager_set s name).0.fd_map
          ≡ (if str_eq name j then none else lookup j s.fd_map))
      × (lookup j (insert_fd s name fd).0.fd_map
          ≡ (if str_eq name j then insert_into (lookup j s.fd_map) fd else lookup j s.fd_map))
      × ((insert_fd s name fd).1 ≡ (if is_some (lookup name s.fd_map) then pos 0 else minus_one))
unfolding creat_manager_set delete_manager_set insert_fd lookup
calls_refine_dictionary s name j num fd = (
  ground (arith, eq_iff name j, find_pair-lookup name s.fd_map),
  lookup-delete_entries name j s.fd_map,
  (lookup-insert_entry name j fd s.fd_map).0,
  (lookup-insert_entry name name fd s.fd_map).1,
)
