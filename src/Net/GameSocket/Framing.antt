-- ===== src/Net/GameSocket/Framing.antt =====
-- src/net/game_socket.cpp, `recvPacketTCP` and `encodePacket`: packets on a stream of bytes.
use globed.Common.{
  ℕ, ◌+◌, ◌^◌, ◌<◌, ◌≤◌, ◌≡◌, refl, sym, ap, ◌∙◌, true, false, List, [], ◌++◌, Option, some, Result,
  ok, err, arith, ltb, if◌then◌else◌, length, length-append, append-nil, append_assoc,
}
use globed.Data.Words.{bytes_be, length-bytes_be}
use globed.Data.Buffer.{ByteBuffer, of_bytes, read_primitive}
use globed.Data.Buffer.Cursor.{at, full, read_primitive-at}
use globed.Crypto.Box.{Sodium, nonce_len}
use globed.Packets.Base.{PacketClass, packet_header}
use globed.Net.TcpSocket.{Stream, returned, recv_exact, and_then}
use globed.Net.TcpSocket.Receive.{recv_exact_lem}
use globed.Net.GameSocket.{
  Packet, Failure, header_of, match_packet, decode_packet, encode_packet, value_or_zero,
  data_buf_size, recv_body, recv_packet_tcp,
}
use globed.Net.GameSocket.Encode.{plain, sealed, encode_packet-encrypted}
use globed.Net.GameSocket.Decode.{decode_packet-encrypted}

-- The four bytes in front of a packet are read as its size.
read-length : (n : ℕ) → n < 2 ^ 32 → value_or_zero (read_primitive 4 (of_bytes (bytes_be 4 n))) ≡ n
unfolding of_bytes
read-length n h =
    ap (λ bs. value_or_zero (read_primitive 4 (at [] bs))) (sym (append-nil (bytes_be 4 n)))
    ∙ ap value_or_zero (read_primitive-at 4 n [] [] h (omega arith))

module _ {World : Type 0} (tcp : Stream World) (s : Sodium) (classes : List PacketClass)
    (box : Option s.Key) where
  open tcp use {recv, incoming}

  recv_body_lem :
      (payload ys : List ℕ) (w : World)
      → incoming w ≡ payload ++ ys
      → 1 ≤ length payload
      → length payload < data_buf_size
      → (w' : World) × (recv_body s classes box recv (length payload) true w
          ≡ returned (decode_packet s classes box (of_bytes payload)) true w')
        × (incoming w' ≡ ys)
  unfolding recv_body
  recv_body_lem payload ys w e pos h =
      let (w', run, left) = recv_exact_lem tcp payload ys w e pos in
      let small : ltb (length payload) 524288 ≡ true = ground (arith, h) in
      (w', rw (small, run) refl, left)

  -- A payload behind its length is taken off the stream and decoded.
  recv_packet_tcp_lem :
      (payload ys : List ℕ) (w : World)
      → incoming w ≡ (bytes_be 4 (length payload) ++ payload) ++ ys
      → 1 ≤ length payload
      → length payload < data_buf_size
      → (w' : World) × (recv_packet_tcp s classes box recv true w
          ≡ returned (decode_packet s classes box (of_bytes payload)) true w')
        × (incoming w' ≡ ys)
  unfolding recv_packet_tcp
  recv_packet_tcp_lem payload ys w e pos h =
      let n = length payload in
      let head = bytes_be 4 n in
      let (w', run, left) =
        recv_exact_lem tcp head (payload ++ ys) w (e ∙ append_assoc head payload ys)
          (omega (arith, length-bytes_be 4 n)) in
      let (w'', run', left') = recv_body_lem payload ys w' left pos h in
      let next = λ (bs : List ℕ).
        recv_body s classes box recv (value_or_zero (read_primitive 4 (of_bytes bs))) in
      (
        w'',
        ap (λ m. and_then (recv_exact recv m true w) next) (sym (length-bytes_be 4 n))
            ∙ ap (λ r. and_then r next) run
            ∙ ap (λ m. recv_body s classes box recv m true w') (read-length n (omega arith))
            ∙ run',
        left',
      )

-- How a peer puts a packet on the stream.
abbrev pub behind_length : List ℕ → List ℕ
behind_length bs = bytes_be 4 (length bs) ++ bs

-- The bytes that `encodePacket` makes.
abbrev pub sent_bytes : Result Failure ByteBuffer → List ℕ
sent_bytes (ok b) = b.bytes
sent_bytes (err e) = []

-- An encrypted packet of a class without use_tcp, as each class of the server is, stands on the stream
-- behind its length in four bytes: recvPacketTCP yields it, if the receiver has the key and knows the
-- class, its members fit the wire and the whole is small enough for the receive buffer. That holds
-- whatever follows the packet on the stream, which is left there, and however the stream is cut up on
-- its way.
pub recv_packet_tcp-encode_packet :
    {World : Type 0} (tcp : Stream World) (s : Sodium) (classes : List PacketClass) (k : s.Key)
    (nonce : List ℕ) (p : Packet) (ys : List ℕ) (w : World)
    → p.class.encrypted ≡ true
    → p.class.use_tcp ≡ false
    → length nonce ≡ nonce_len
    → p.class.id < 2 ^ 16
    → match_packet classes p.class.id ≡ some p.class
    → p.class.body.IsFit p.members
    → length (plain p) + 64 < data_buf_size
    → tcp.incoming w ≡ behind_length (sent_bytes (encode_packet s (some k) nonce p (full []))) ++ ys
    → (w' : World) × (recv_packet_tcp s classes (some k) tcp.recv true w ≡ returned (ok p) true w')
      × (tcp.incoming w' ≡ ys)
recv_packet_tcp-encode_packet tcp s classes k nonce p ys w e t hn hid hm f h sent =
    let c = p.class in
    let payload = sealed s k nonce p in
    let hw = packet_header.wire (header_of c) in
    let bw = c.body.wire p.members in
    let sw = s.seal k nonce bw in
    let l : length payload ≡ length (plain p) + 40 = omega (
      arith,
      length-append hw (nonce ++ sw),
      length-append nonce sw,
      hn,
      s.length-seal k nonce bw,
      length-append hw bw,
    ) in
    let encoding =
      ap sent_bytes (encode_packet-encrypted s k nonce p [] e hn (omega (arith, h)))
      ∙ ap (λ y. (if y then bytes_be 4 (length payload) else []) ++ payload) t in
    let (w', run, left) =
      recv_packet_tcp_lem tcp s classes (some k) payload ys w
        (sent ∙ ap (λ bs. behind_length bs ++ ys) encoding) (omega (arith, l))
        (omega (arith, l, h)) in
    (
      w',
      run
          ∙ ap (λ r. returned r true w')
              (decode_packet-encrypted s classes k nonce p e hn hid hm f (omega (arith, h))),
      left,
    )
