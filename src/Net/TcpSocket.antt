-- ===== src/Net/TcpSocket.antt =====
-- src/net/tcp_socket.cpp: receiving and sending exactly so many bytes.
-- The operating system's `recv` and `send` are parameters, on the state `World` of the connection.
-- The `do … while` loops run on fuel: every round moves at least one byte.
pub mod Receive
pub mod Send
use globed.Common.{
  ℕ, zero, suc, ◌-◌, ◌≤◌, ◌≡◌, Bool, true, false, ◌&&◌, List, [], ◌++◌, ltb, if◌then◌else◌, length,
  drop, take,
}

-- What `recv` returns: some bytes, 0, or -1, with whether `errno` is `EWOULDBLOCK`.
pub data RecvAnswer : Type 0 where
  data_read : List ℕ → RecvAnswer
  end_of_stream : RecvAnswer
  recv_error : Bool → RecvAnswer

pub data SocketError : Type 0 where
  not_connected last_error closed_by_server out_of_fuel : SocketError

-- The value that a call returns, beside the socket's `connected` flag and the connection after it.
pub data Step {ℓ} (World : Type 0) (A : Type ℓ) : Type ℓ where
  returned : A → Bool → World → Step World A
  refused : SocketError → Bool → World → Step World A

abbrev pub and_then {ℓ κ} :
    {W : Type 0} {A : Type ℓ} {B : Type κ} → Step W A → (A → Bool → W → Step W B) → Step W B
and_then (returned a c w) f = f a c w
and_then (refused e c w) f = refused e c w

-- `recv` of a stream socket, as documented: it blocks until there are bytes, and hands on some of
-- the next bytes of the stream, at least one and at most as many as were asked for.
pub record Stream (World : Type 0) : Type 0 where
  pub recv : ℕ → World → RecvAnswer × World
  pub incoming : World → List ℕ
  pub delivers :
      (n : ℕ) (w : World)
      → 1 ≤ n
      → 1 ≤ length (incoming w)
      → (bs : List ℕ) × (w' : World) × (recv n w ≡ (data_read bs, w'))
        × (incoming w ≡ bs ++ incoming w')
        × (1 ≤ length bs)
        × (length bs ≤ n)

-- `maybeDisconnect` and `disconnect`, after the answer to a `recv`.
unfoldable pub connected_after : RecvAnswer → Bool
connected_after (data_read bs) = true
connected_after end_of_stream = false
connected_after (recv_error would_block) = would_block

module _ {World : Type 0} (recv : ℕ → World → RecvAnswer × World) where
  -- `receive`. On a closed socket it answers -1 without a call.
  unfoldable pub receive : ℕ → Bool → World → RecvAnswer × (Bool × World)
  unfolding connected_after
  receive n false w = (recv_error true, (false, w))
  receive n true w = let r = recv n w in (r.0, (connected_after r.0, r.1))

  -- What `recvExact` makes of one answer, where `next` goes round again.
  unfoldable pub received :
      (List ℕ → Bool → World → Step World (List ℕ))
      → ℕ
      → List ℕ
      → RecvAnswer
      → Bool
      → World
      → Step World (List ℕ)
  received next n filled (recv_error b) c w = refused last_error c w
  received next n filled end_of_stream c w = refused closed_by_server c w
  received next n filled (data_read bs) c w =
      if ltb (length (filled ++ bs)) n then next (filled ++ bs) c w else returned (filled ++ bs) c w

  -- The loop of `recvExact`, with the bytes of `buffer` that are filled.
  unfoldable pub recv_loop : ℕ → ℕ → List ℕ → Bool → World → Step World (List ℕ)
  unfolding receive received
  recv_loop zero n filled c w = refused out_of_fuel c w
  recv_loop (suc fuel) n filled c w =
      let r = receive (n - length filled) c w in
      received (recv_loop fuel n) n filled r.0 r.1.0 r.1.1

  unfoldable pub recv_exact : ℕ → Bool → World → Step World (List ℕ)
  recv_exact n false w = refused not_connected false w
  recv_exact n true w = recv_loop (suc n) n [] true w

-- What `send` returns: how many of the bytes it took, or -1.
pub data SendAnswer : Type 0 where
  taken : ℕ → SendAnswer
  send_error : Bool → SendAnswer

module _ {World : Type 0} (send : List ℕ → World → SendAnswer × World) where
  -- What `sendAll` makes of one answer, where `next` goes round again.
  unfoldable pub sent :
      (List ℕ → Bool → World → Step World (Unit {0}))
      → List ℕ
      → SendAnswer
      → Bool
      → World
      → Step World (Unit {0})
  sent next bs (send_error would_block) c w = refused last_error (c && would_block) w
  sent next bs (taken n) c w = if ltb n (length bs) then next (drop n bs) c w else returned tt c w

  -- The loop of `sendAll`, with the bytes that are still to be sent.
  unfoldable pub send_all : ℕ → List ℕ → Bool → World → Step World (Unit {0})
  unfolding sent
  send_all zero bs c w = refused out_of_fuel c w
  send_all (suc fuel) bs c w = let r = send bs w in sent (send_all fuel) bs r.0 c r.1

-- `send` of a stream socket, as documented: it blocks until it has taken some of the bytes, from the
-- front, which then stand behind all that was sent before.
pub record Sink (World : Type 0) : Type 0 where
  pub send : List ℕ → World → SendAnswer × World
  pub outgoing : World → List ℕ
  pub takes :
      (bs : List ℕ) (w : World)
      → 1 ≤ length bs
      → (n : ℕ) × (w' : World) × (send bs w ≡ (taken n, w'))
        × (outgoing w' ≡ outgoing w ++ take n bs)
        × (1 ≤ n)
        × (n ≤ length bs)
