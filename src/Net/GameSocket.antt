-- ===== src/Net/GameSocket.antt =====
-- src/net/game_socket.cpp, `encodePacket` and `decodePacket`, `recvPacketTCP`; src/data/packets/all.cpp, `matchPacket`.
-- A call either returns a value, refuses with the message of a `GLOBED_REQUIRE_SAFE`, or throws.
pub mod Length
pub mod Encode
pub mod Decode
pub mod Framing
pub mod Exchange
pub mod Datagram
pub mod Matching
use globed.Common.{
  ℕ, ◌+◌, ◌%◌, ◌^◌, Bool, not, ◌&&◌, List, [], ◌∷◌, Option, none, some, Result, ok, err, ltb, ◌==◌,
  if◌then◌else◌,
}
use globed.Data.Buffer.{
  ByteBuffer, Outcome, done, failed, thrown, DecodeError, sub_size, size, set_position, resize,
  grow, of_bytes, read_primitive, write_primitive,
}
use globed.Crypto.Box.{
  Sodium, Crypted, crypted, threw, prefix_len, encrypt_in_place, decrypt_in_place,
}
use globed.Net.TcpSocket.{RecvAnswer, Step, returned, and_then, recv_exact}
use globed.Packets.Base.{PacketClass, PacketHeader, packet_header, header_size}

pub data Failure : Type 0 where
  no_box_to_encrypt no_box_to_decrypt cleartext_packet packet_too_big exception : Failure
  invalid_packet : ℕ → Failure
  decoding_failed : ℕ → DecodeError → Failure

-- A `Packet` object: its class and its members.
pub record Packet : Type 1 where
  pub class : PacketClass
  pub members : class.Body

-- The packet id's case in the switch.
unfoldable pub match_packet : List PacketClass → ℕ → Option PacketClass
match_packet [] id = none
match_packet (c ∷ cs) id = if c.id == id then some c else match_packet cs id

abbrev pub header_of : PacketClass → PacketHeader
header_of c = record { id = c.id; encrypted = c.encrypted }

abbrev pub length_size : PacketClass → ℕ
length_size c = if c.use_tcp then 4 else 0

unfoldable pub encoded : ByteBuffer → Crypted → Result Failure ByteBuffer
encoded b threw = err exception
encoded b (crypted memory n) = ok (record b { bytes = memory })

-- The length in front, written last.
unfoldable pub write_packet_size : PacketClass → ℕ → ByteBuffer → ByteBuffer
unfolding set_position size
write_packet_size c start b =
    if c.use_tcp
    then set_position b.position
        (write_primitive 4 (sub_size (sub_size (size b) 4) start % 2 ^ 32) (set_position start b))
    else b

unfoldable pub write_plain : (p : Packet) → ByteBuffer → ByteBuffer
write_plain p b =
    p.class.body.write p.members (
      packet_header.write (header_of p.class)
        (if p.class.use_tcp then write_primitive 4 0 b else b))

unfoldable pub finished : PacketClass → ℕ → Result Failure ByteBuffer → Result Failure ByteBuffer
unfolding write_packet_size
finished c start (err e) = err e
finished c start (ok b) = ok (write_packet_size c start b)

unfoldable pub decoded : (c : PacketClass) → Outcome c.Body → Result Failure Packet
decoded c (done t b) = ok (record { class = c; members = t })
decoded c (failed e b) = err (decoding_failed c.id e)
decoded c (thrown b) = err exception

unfoldable pub decode_decrypted : PacketClass → ByteBuffer → Crypted → Result Failure Packet
unfolding decoded resize
decode_decrypted c b threw = err exception
decode_decrypted c b (crypted memory n) =
    decoded c (c.body.read (resize (n + header_size) (record b { bytes = memory })))

module _ (s : Sodium) where
  open s use {Key}

  -- The part of `encodePacket` for an encrypted packet.
  unfoldable pub encrypt_body :
      Option Key → List ℕ → PacketClass → ℕ → ByteBuffer → Result Failure ByteBuffer
  unfolding grow encoded size
  encrypt_body none nonce c start b = err no_box_to_encrypt
  encrypt_body (some k) nonce c start b =
      let grown = grow prefix_len b in
      let header = header_size + length_size c in
      encoded grown (
        encrypt_in_place s k nonce grown.bytes (start + header)
          (sub_size (sub_size (sub_size (size grown) header) start) prefix_len))

  unfoldable pub encode_packet :
      Option Key → List ℕ → Packet → ByteBuffer → Result Failure ByteBuffer
  unfolding write_plain
  encode_packet box nonce p b = finished p.class b.position (
      if p.class.encrypted
      then encrypt_body box nonce p.class b.position (write_plain p b)
      else ok (write_plain p b))

  unfoldable pub decode_encrypted : Option Key → PacketClass → ByteBuffer → Result Failure Packet
  unfolding size
  decode_encrypted none c b = err no_box_to_decrypt
  decode_encrypted (some k) c b =
      decode_decrypted c b (decrypt_in_place s k b.bytes header_size (sub_size (size b) b.position))

  unfoldable pub decode_matched :
      Option Key → PacketHeader → ByteBuffer → Option PacketClass → Result Failure Packet
  decode_matched box h b none = err (invalid_packet h.id)
  decode_matched box h b (some c) =
      if c.encrypted && not h.encrypted
      then err cleartext_packet
      else if h.encrypted
      then decode_encrypted box c b
      else decoded c (c.body.read b)

  unfoldable pub decode_headed :
      List PacketClass → Option Key → Outcome PacketHeader → Result Failure Packet
  unfolding decode_matched
  decode_headed classes box (done h b) = decode_matched box h b (match_packet classes h.id)
  decode_headed classes box (failed e b) = err exception
  decode_headed classes box (thrown b) = err exception

  unfoldable pub decode_packet : List PacketClass → Option Key → ByteBuffer → Result Failure Packet
  decode_packet classes box b = decode_headed classes box (packet_header.read b)

-- `value_or(0)`.
abbrev pub value_or_zero : Outcome ℕ → ℕ
value_or_zero (done v b) = v
value_or_zero (failed e b) = 0
value_or_zero (thrown b) = 0

-- `DATA_BUF_SIZE`.
abbrev pub data_buf_size : ℕ
data_buf_size = 2 ^ 19

-- `recvPacketTCP`. An error of the socket is `refused`.
module _ {World : Type 0} (s : Sodium) (classes : List PacketClass) (box : Option s.Key)
    (recv : ℕ → World → RecvAnswer × World) where
  unfoldable pub recv_body : ℕ → Bool → World → Step World (Result Failure Packet)
  recv_body packet_size c w =
      if ltb packet_size data_buf_size
      then and_then (recv_exact recv packet_size c w)
          (λ bytes. returned (decode_packet s classes box (of_bytes bytes)))
      else returned (err packet_too_big) c w

  unfoldable pub recv_packet_tcp : Bool → World → Step World (Result Failure Packet)
  unfolding recv_body
  recv_packet_tcp c w =
      and_then (recv_exact recv 4 c w)
        (λ head. recv_body (value_or_zero (read_primitive 4 (of_bytes head))))
