-- ===== src/Address/Tests.antt =====
-- The text of an address at concrete data.
use network_structure.Prelude.{ℕ, ◌≤◌, ◌≡◌, refl, none, some, [], ◌∷◌, arith, length}
use network_structure.Address.RoundTrip.{to_ip_port-inet_address, Prints}
use network_structure.Address.{inet_address_any, inet_address, AddressText, to_ip_port}

-- A library that prints one character for each number.
abbrev plain : AddressText
plain = record {
  pton = λ t. elim t [ [] ↦ none | (x ∷ xs) ↦ some x ];
  ntop = λ a. a ∷ [];
  digits = λ x. x ∷ [];
}

plain-Prints : Prints plain
plain-Prints = record {
  ntop_short = λ a. omega arith;
  digits_short = λ x h. omega arith;
  pton-ntop = λ a h. refl;
}

to_ip_port-inet_address_example :
    (to_ip_port plain [] (inet_address plain (7 ∷ []) 55266) ≡ some (7 ∷ 58 ∷ 55266 ∷ []))
    × (length {A = ℕ} (7 ∷ 58 ∷ 55266 ∷ []) ≤ 21)
    × (to_ip_port plain [] (inet_address_any 55266) ≡ some (0 ∷ 58 ∷ 55266 ∷ []))
to_ip_port-inet_address_example =
    to_ip_port-inet_address plain plain-Prints [] 7 55266 (omega arith) (omega arith)
