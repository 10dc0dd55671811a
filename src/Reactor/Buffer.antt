-- ===== src/Reactor/Buffer.antt =====
-- The interface to the byte buffer of Network/src/Buffer.h, which is a copy of muduo's: the calls
-- that a connection makes of it, with what its comments promise.
use network_structure.Prelude.{ℕ, ◌≤◌, ◌≡◌, List, [], ◌++◌, length, drop}

pub record BufferOps (B : Type 0) : Type 0 where
  pub empty : B
  pub readable_bytes : B → ℕ
  pub peek : B → List ℕ
  pub append : B → List ℕ → B
  pub retrieve : B → ℕ → B
  pub peek-empty : peek empty ≡ []
  pub readable_bytes_lem : (b : B) → readable_bytes b ≡ length (peek b)
  pub peek-append : (b : B) (xs : List ℕ) → peek (append b xs) ≡ peek b ++ xs
  pub peek-retrieve : (b : B) (n : ℕ) → n ≤ length (peek b) → peek (retrieve b n) ≡ drop n (peek b)
