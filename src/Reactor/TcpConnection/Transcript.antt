-- ===== src/Reactor/TcpConnection/Transcript.antt =====
-- A connection over any sequence of calls of `send` and of writable events.
use mathlib.Core.List.{append_assoc, append-nil}
use network_structure.Prelude.{
  ℕ, ◌≡◌, refl, sym, ap, ◌∙◌, inl, inr, List, [], ◌∷◌, ◌++◌, if◌then◌else◌, Bool-cases,
}
use network_structure.Reactor.Buffer.{BufferOps}
use network_structure.Reactor.World.{World, Env}
use network_structure.Reactor.TcpConnection.{send, handle_write}
use network_structure.Reactor.TcpConnection.Stream.{WritesFit, stream, is_dropped}
use network_structure.Reactor.TcpConnection.Stream.Laws.{stream-send, stream-handle_write}
use network_structure.Reactor.TcpConnection.Interest.{Interest, Kept, send-Kept, handle_write-Kept}

pub data Io : Type 0 where
  sends : List ℕ → Io
  writable : Io

module _ {B S : Type 0} (ops : BufferOps B) (env : Env) (c : ℕ) where
  pub step : Io → World B S → World B S
  step (sends bytes) w = send ops env c bytes w
  step writable w = handle_write ops env c w

  pub run : List Io → World B S → World B S
  run [] w = w
  run (e ∷ es) w = run es (step e w)

  -- The bytes of all the calls of `send` that were not dropped, in order.
  pub offered : List Io → World B S → List ℕ
  offered [] w = []
  offered (sends bytes ∷ es) w =
      (if is_dropped ops env w c bytes then [] else bytes) ++ offered es (step (sends bytes) w)
  offered (writable ∷ es) w = offered es (step writable w)

  step-Kept : WritesFit env → (e : Io) (w : World B S) → Interest ops c w → Kept ops c (step e w) w
  unfolding step
  step-Kept fit (sends bytes) w i = send-Kept ops env c w i fit bytes
  step-Kept fit writable w i = handle_write-Kept ops env c w i

  -- Where a write takes no more than it is offered: from a connection that waits for EPOLLOUT
  -- exactly while bytes wait, and whose descriptor is not the loop's own, any sequence of calls of
  -- `send` and of writable events, whatever the writes return, leaves such a connection; and what
  -- the operating system has taken, followed by what still waits, has grown by exactly the bytes of
  -- the calls that were not dropped, in the order of the calls.
  pub run-stream :
      WritesFit env
      → (es : List Io) (w : World B S) → Interest ops c w
      → (stream ops env (run es w) c ≡ stream ops env w c ++ offered es w)
        × Interest ops c (run es w)
  unfolding run offered step
  run-stream fit [] w i = (sym (append-nil _), i)
  run-stream fit (sends bytes ∷ es) w i =
      let v = step (sends bytes) w in
      let ih = run-stream fit es v (step-Kept fit (sends bytes) w i).interest in
      (
        ih.0 ∙ elim (Bool-cases (is_dropped ops env w c bytes)) [
          | inl lost ↦ rw lost (
              ap (λ xs. xs ++ offered es v)
                (stream-send ops env fit c w bytes i.apart ∙ rw lost refl))
          | inr kept ↦ rw kept (
              ap (λ xs. xs ++ offered es v)
                (stream-send ops env fit c w bytes i.apart ∙ rw kept refl)
              ∙ append_assoc (stream ops env w c) bytes (offered es v))
        ],
        ih.1,
      )
  run-stream fit (writable ∷ es) w i =
      let v = step writable w in
      let ih = run-stream fit es v (step-Kept fit writable w i).interest in
      (ih.0 ∙ ap (λ xs. xs ++ offered es v) (stream-handle_write ops env fit c w i.apart), ih.1)
