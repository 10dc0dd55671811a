-- ===== src/UdpSocket/Answers.antt =====
-- What the server of Network/src/UdpSocket.cpp answers.
use mathlib.Core.List.{append_assoc, append-nil}
use Prim.Native.Nat.{min}
use network_structure.UdpSocket.{
  not_set, select_failed, timed_out, receives, set_socket_opt, after_receive, bind_socket,
  hello_world, receive_failed, run_polls, run_udp, datagram, sends_to, Poll, UdpCall,
}
use network_structure.Prelude.{
  ℕ, ◌≡◌, refl, sym, ap, ◌∙◌, inl, inr, Bool, true, false, ◌||◌, Option, none, some, List, [], ◌∷◌,
  ◌++◌, arith, ltb, leb, ◌==◌, if◌then◌else◌, Bool-cases, ◌>>=◌, length,
}
use network_structure.Prelude.Int.{eq_ℤ, minus_one, ℤ}

-- The answers that were sent, oldest first.
abbrev answers : List UdpCall → List (ℕ × List ℕ)
answers [] = []
answers (sends_to from bytes ∷ cs) = answers cs ++ (from, bytes) ∷ []
answers (_ ∷ cs) = answers cs

-- The answers due: one for each datagram before the first empty one.
abbrev answers_due : List Poll → List (ℕ × List ℕ)
answers_due [] = []
answers_due (datagram from [] ∷ ps) = []
answers_due (datagram from (b ∷ bs) ∷ ps) = (from, hello_world) ∷ answers_due ps
answers_due (_ ∷ ps) = answers_due ps

-- Whether, before an empty datagram, one comes that fills the array or none can be received.
abbrev overruns : List Poll → Bool
overruns [] = false
overruns (receive_failed ∷ ps) = true
overruns (datagram from [] ∷ ps) = false
overruns (datagram from (b ∷ bs) ∷ ps) = leb 1024 (length (b ∷ bs)) || overruns ps
overruns (_ ∷ ps) = overruns ps

-- Where the compiler lets the caller of PollTest go on, the value that it gets is not -1.
record Continues (leftover : List UdpCall → Option ℤ) : Type 0 where
  value : List UdpCall → ℤ
  left : (cs : List UdpCall) → leftover cs ≡ some (value cs)
  not_end : (cs : List UdpCall) → eq_ℤ minus_one (value cs) ≡ false

module _ (leftover : List UdpCall → Option ℤ) (h : Continues leftover) where
  -- What a run is to leave, from the calls made before.
  abbrev due : List Poll → List UdpCall → Option (List (ℕ × List ℕ))
  due ps calls = if overruns ps then none else some (answers calls ++ answers_due ps)

  abbrev seen : Option (List UdpCall) → Option (List (ℕ × List ℕ))
  seen m = m >>= λ c. some (answers c)

  run_polls-answers :
      (ps : List Poll) (calls : List UdpCall) → seen (run_polls leftover ps calls) ≡ due ps calls
  unfolding run_polls after_receive
  run_polls-answers [] calls = ap some (sym (append-nil (answers calls)))
  run_polls-answers (timed_out ∷ ps) calls =
      rw (h.left calls, h.not_end calls) (run_polls-answers ps calls)
  run_polls-answers (select_failed ∷ ps) calls =
      rw (h.left calls, h.not_end calls) (run_polls-answers ps calls)
  run_polls-answers (not_set ∷ ps) calls =
      rw (h.left calls, h.not_end calls) (run_polls-answers ps calls)
  run_polls-answers (receive_failed ∷ ps) calls = refl
  run_polls-answers (datagram from [] ∷ ps) calls = ap some (sym (append-nil (answers calls)))
  run_polls-answers (datagram from (b ∷ bs) ∷ ps) calls =
      let n = min 1024 (length (b ∷ bs)) in
      let some_bytes : (0 == n) ≡ false = ground arith in
      elim (Bool-cases (leb 1024 (length (b ∷ bs)))) [
        | inl e ↦ let big : ltb n 1024 ≡ false = ground (arith, e) in rw (some_bytes, big, e) refl
        | inr e ↦
            let small : ltb n 1024 ≡ true = ground (arith, e) in
            let calls1 = sends_to from hello_world ∷ receives 1024 ∷ calls in
            rw (some_bytes, small, e, h.left calls1, h.not_end calls1)
              (run_polls-answers ps calls1
                ∙ ap (λ l. if overruns ps then none else some l)
                    (append_assoc (answers calls) ((from, hello_world) ∷ []) (answers_due ps)))
      ]

  -- The server answers every datagram before the first empty one with "hello world", once, in
  -- order and to its sender, and then ends, and it writes outside its array exactly where one of
  -- them has 1024 bytes or more or cannot be received; where the caller of PollTest goes on, and the
  -- value that it gets without a return is not -1.
  run_udp-answers :
      (ps : List Poll)
      → (run_udp leftover ps [] >>= λ c. some (answers c))
        ≡ (if overruns ps then none else some (answers_due ps))
  unfolding run_udp
  run_udp-answers ps = run_polls-answers ps (bind_socket (set_socket_opt []))
