-- ===== src/Reactor/MyServer/Registry/Table.antt =====
-- `connections_` of Network/include/TcpServer.h as a map from names to addresses.
use network_structure.Reactor.TcpServer.{erase_conn, put_conn, same_name}
use network_structure.Prelude.{
  ℕ, ◌≡◌, refl, sym, ap, ◌∙◌, ◌≢◌, ◌⊎◌, inl, inr, true, false, Option, none, some, List, [], ◌∷◌,
  arith, ◌==◌, if◌then◌else◌, ==_iff, Bool-cases,
}

-- `connections_.find(name)`
unfoldable pub find_conn : List ℕ → List (List ℕ × ℕ) → Option ℕ
find_conn k [] = none
find_conn k ((j, d) ∷ m) = if same_name j k then some d else find_conn k m

pub same_name_refl : (k : List ℕ) → same_name k k ≡ true
same_name_refl [] = refl
same_name_refl (x ∷ k) = ground (arith, same_name_refl k)

same_name-true : (j k : List ℕ) → same_name j k ≡ true → j ≡ k
same_name-true [] [] e = refl
same_name-true [] (y ∷ k) e = ground (arith, e)
same_name-true (x ∷ j) [] e = ground (arith, e)
same_name-true (x ∷ j) (y ∷ k) e = elim (Bool-cases (x == y)) [
  | inl h ↦
      let rest = same_name-true j k (ground (arith, h, e)) in
      ap (λ a. a ∷ j) ((==_iff x y).0 h) ∙ ap (◌∷◌ y) rest
  | inr h ↦ ground (arith, h, e)
]

-- Two names are the same text or not.
pub name-cases :
    (j k : List ℕ) → ((same_name j k ≡ true) × (j ≡ k)) ⊎ ((same_name j k ≡ false) × (j ≢ k))
name-cases j k = elim (Bool-cases (same_name j k)) [
  | inl h ↦ inl (h, same_name-true j k h)
  | inr h ↦ inr (h, λ e. ground (arith, h, sym (same_name_refl j) ∙ ap (same_name j) e))
]

pub find_conn-put_conn :
    (k at : List ℕ) (c : ℕ) (m : List (List ℕ × ℕ))
    → find_conn at (put_conn k c m) ≡ (if same_name k at then some c else find_conn at m)
unfolding find_conn put_conn
find_conn-put_conn k at c [] = refl
find_conn-put_conn k at c ((j, d) ∷ m) = elim (name-cases j k) [
  | inl (h, e) ↦ rw (h, ap (λ t. same_name t at) e) (ground arith)
  | inr (h, e) ↦ elim (name-cases j at) [
    | inl (i, e1) ↦ elim (name-cases k at) [
      | inl (g, e2) ↦ absurd (e (e1 ∙ sym e2))
      | inr (g, e2) ↦ ground (arith, h, i, g)
    ]
    | inr (i, e1) ↦ ground (arith, h, i, find_conn-put_conn k at c m)
  ]
]

pub find_conn-erase_conn :
    (k at : List ℕ) (m : List (List ℕ × ℕ))
    → find_conn at (erase_conn k m) ≡ (if same_name k at then none else find_conn at m)
unfolding find_conn erase_conn
find_conn-erase_conn k at [] = ground arith
find_conn-erase_conn k at ((j, d) ∷ m) = elim (name-cases j k) [
  | inl (h, e) ↦
      let rest = find_conn-erase_conn k at m in
      let eq : same_name j at ≡ same_name k at = ap (λ t. same_name t at) e in
      ground (arith, h, rest, eq)
  | inr (h, e) ↦ elim (name-cases j at) [
    | inl (i, e1) ↦ elim (name-cases k at) [
      | inl (g, e2) ↦ absurd (e (e1 ∙ sym e2))
      | inr (g, e2) ↦ ground (arith, h, i, g)
    ]
    | inr (i, e1) ↦ ground (arith, h, i, find_conn-erase_conn k at m)
  ]
]
