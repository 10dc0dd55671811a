-- ===== src/UdpSocket.antt =====
-- Network/src/UdpSocket.cpp: the server that answers each datagram. The calls of the operating
-- system that it makes are kept, newest first; what select(2) and recvfrom(2) report is a `Poll`,
-- and a write outside the array `socket_buf` is undefined, `none`. `PollTest` and `SetSocketOpt`
-- lack a return at their end, which is undefined; where the compiler lets the caller go on all the
-- same, the value that it then gets is what the parameter `leftover` says for the calls made so far.
-- Whether sendto(2) fails is not looked at.
pub mod Answers
mod Tests
use Prim.Native.Nat.{min}
use network_structure.Prelude.{
  ℕ, Option, none, some, List, [], ◌∷◌, ltb, ◌==◌, if◌then◌else◌, ◌>>=◌, length,
}
use network_structure.Prelude.Int.{eq_ℤ, minus_one, ℤ}

pub data UdpCall : Type 0 where
  sets_broadcast : ℕ → UdpCall
  binds : UdpCall
  sends_to : ℕ → List ℕ → UdpCall
  receives : ℕ → UdpCall
  shuts_down : ℕ → UdpCall
  closes_socket : UdpCall

-- A datagram comes with the address of its sender. `not_set` is a descriptor that FD_ISSET denies.
pub data Poll : Type 0 where
  timed_out select_failed not_set receive_failed : Poll
  datagram : ℕ → List ℕ → Poll

-- UDP_BUF_LEN
abbrev pub udp_buf_len : ℕ
udp_buf_len = 1024

-- "hello world"
abbrev pub hello_world : List ℕ
hello_world = 104 ∷ 101 ∷ 108 ∷ 108 ∷ 111 ∷ 32 ∷ 119 ∷ 111 ∷ 114 ∷ 108 ∷ 100 ∷ []

-- The number of bytes that recvfrom(2) puts into the array: what does not fit is lost.
abbrev pub received_size : List ℕ → ℕ
received_size bytes = min udp_buf_len (length bytes)

-- `socket_buf[num] = '\0'` and the answer, of a number that is not 0.
unfoldable pub answer : ℕ → ℕ → List UdpCall → Option (List UdpCall)
answer from num calls =
    if ltb num udp_buf_len then some (sends_to from hello_world ∷ calls) else none

-- The test of `num`; -1, too, is not 0, and the array has no element of that index.
unfoldable pub after_receive :
    (List UdpCall → Option ℤ) → ℕ → ℕ → List UdpCall → Option (List UdpCall × ℤ)
unfolding answer
after_receive leftover from num calls =
    if 0 == num
    then some (calls, minus_one)
    else (do c ← answer from num calls; v ← leftover c; some (c, v))

unfoldable pub poll_test :
    (List UdpCall → Option ℤ) → Poll → List UdpCall → Option (List UdpCall × ℤ)
unfolding after_receive
poll_test leftover timed_out calls = leftover calls >>= λ v. some (calls, v)
poll_test leftover select_failed calls = leftover calls >>= λ v. some (calls, v)
poll_test leftover not_set calls = leftover calls >>= λ v. some (calls, v)
poll_test leftover receive_failed calls = none
poll_test leftover (datagram from bytes) calls =
    after_receive leftover from (received_size bytes) (receives udp_buf_len ∷ calls)

-- The loop of `Run` over what the operating system reports; at the end of the list it waits.
unfoldable pub run_polls :
    (List UdpCall → Option ℤ) → List Poll → List UdpCall → Option (List UdpCall)
unfolding poll_test
run_polls leftover [] calls = some calls
run_polls leftover (p ∷ ps) calls = poll_test leftover p calls >>= λ t.
    if eq_ℤ minus_one t.1 then some t.0 else run_polls leftover ps t.0

-- `SetSocketOpt`, whose option is 0, and `Bind`; `Run` uses the result of neither.
unfoldable pub set_socket_opt : List UdpCall → List UdpCall
set_socket_opt calls = sets_broadcast 0 ∷ calls

unfoldable pub bind_socket : List UdpCall → List UdpCall
bind_socket calls = binds ∷ calls

unfoldable pub run_udp :
    (List UdpCall → Option ℤ) → List Poll → List UdpCall → Option (List UdpCall)
unfolding run_polls set_socket_opt bind_socket
run_udp leftover ps calls = run_polls leftover ps (bind_socket (set_socket_opt calls))

-- `Shutdown`, where every other mode is 2, and `Close`.
unfoldable pub udp_shutdown : ℕ → List UdpCall → List UdpCall
udp_shutdown mode calls = shuts_down (if mode == 0 then 0 else (if mode == 1 then 1 else 2)) ∷ calls

unfoldable pub udp_close : List UdpCall → List UdpCall
udp_close calls = closes_socket ∷ calls
