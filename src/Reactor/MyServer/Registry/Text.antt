-- ===== src/Reactor/MyServer/Registry/Text.antt =====
-- The names of `TcpServer::newConnection` differ, where the buffer of 64 characters holds them.
use network_structure.Prelude.{
  ℕ, ◌+◌, ◌≤◌, ◌<◌, ◌≡◌, sym, ap, ◌∙◌, List, [], ◌∷◌, ◌++◌, arith, length, take, drop,
  length-append, take_all,
}

append-cancel : (xs a b : List ℕ) → xs ++ a ≡ xs ++ b → a ≡ b
append-cancel [] a b e = e
append-cancel (x ∷ xs) a b e = append-cancel xs a b (ap (drop 1) e)

-- `%d` prints the ids below the limit differently, and the text of the name fits its buffer.
pub record PrintsIds (digits : ℕ → List ℕ) (hostport : List ℕ) (limit : ℕ) : Type 0 where
  pub differ : (i j : ℕ) → i < limit → j < limit → digits i ≡ digits j → i ≡ j
  pub fits : (i : ℕ) → i < limit → length hostport + length (digits i) ≤ 61

module _ (digits : ℕ → List ℕ) (name hostport : List ℕ) (limit : ℕ)
    (d : PrintsIds digits hostport limit) where
  whole :
      (k : ℕ)
      → k < limit
      → take 63 (45 ∷ hostport ++ 35 ∷ digits k) ≡ 45 ∷ hostport ++ 35 ∷ digits k
  whole k l =
      take_all 63 (45 ∷ hostport ++ 35 ∷ digits k)
        (omega (arith, length-append hostport (35 ∷ digits k), d.fits k l))

  pub text-separate :
      (i j : ℕ)
      → i < limit
      → j < limit
      → name ++ take 63 (45 ∷ hostport ++ 35 ∷ digits i)
        ≡ name ++ take 63 (45 ∷ hostport ++ 35 ∷ digits j)
      → i ≡ j
  text-separate i j a b e =
      let same = sym (whole i a) ∙ append-cancel name _ _ e ∙ whole j b in
      d.differ i j a b
        (ap (drop 1) (append-cancel hostport (35 ∷ digits i) (35 ∷ digits j) (ap (drop 1) same)))
