-- ===== src/Net/GameSocket/Datagram.antt =====
-- src/net/game_socket.cpp: a packet through `sendPacket`, a datagram, and `recvPacket`.
use globed.Common.{
  ℕ, ◌+◌, ◌^◌, ◌<◌, ◌≡◌, ap, ◌∙◌, Bool, true, false, List, [], ◌++◌, Option, some, ok, arith,
  length, if◌then◌else◌,
}
use globed.Data.Words.{bytes_be}
use globed.Data.Buffer.{of_bytes}
use globed.Crypto.Box.{Sodium}
use globed.Net.TcpSocket.{RecvAnswer}
use globed.Net.UdpSocket.{UdpSocket, Address, RecvFrom, datagram, receive, same_sockaddr}
use globed.Net.GameSocket.{Packet, match_packet}
use globed.Net.GameSocket.Encode.{plain, encode_packet-cleartext}
use globed.Net.GameSocket.Decode.{decode_packet-cleartext}
use globed.Net.GameSocket.Exchange.{
  on_tcp, on_udp, send_packet, outgoing_of, recv_packet, recv_ready, recv_packet_udp,
  decode_datagram, of_server, udp_ready,
}
use globed.Packets.Base.{PacketClass}

abbrev framed_as : Bool → ℕ → List ℕ
framed_as tcp n = if tcp then bytes_be 4 n else []

abbrev pub from_server : UdpSocket → Address → Bool
from_server u source = if u.connected then same_sockaddr source u.dest_addr else false

module _ {World : Type 0} (s : Sodium) (classes : List PacketClass) (box : Option s.Key)
    (recv : ℕ → World → RecvAnswer × World) (recvfrom : World → RecvFrom × World) where
  -- A packet of an unencrypted UDP class that `matchPacket` knows, whose members fit the wire, is
  -- sent as one datagram; where `recvPacket` is handed that datagram it returns the packet, and says
  -- that it comes from the server exactly if the socket is connected to the address it comes from.
  pub recv_packet-send_packet :
      (nonce : List ℕ) (p : Packet) (u : UdpSocket) (source : Address) (c : Bool) (w w' : World)
      → p.class.encrypted ≡ false
      → p.class.use_tcp ≡ false
      → p.class.id < 2 ^ 16
      → match_packet classes p.class.id ≡ some p.class
      → p.class.body.IsFit p.members
      → length (plain p) + 64 < 2 ^ 32
      → recvfrom w ≡ (datagram (plain p) source, w')
      → (send_packet s classes box true nonce p ≡ ok (on_udp (plain p)))
        × (recv_packet s classes box recv recvfrom (ok udp_ready) u c w ≡ record {
          result = ok (record { packet = p; from_connected = from_server u source });
          tcp_connected = c;
          world = w';
        })
  unfolding send_packet outgoing_of recv_packet recv_ready recv_packet_udp decode_datagram of_server
      receive of_bytes
  recv_packet-send_packet nonce p u source c w w' e t hid hm f h sent = (
    ap (outgoing_of s classes box p.class.use_tcp)
          (encode_packet-cleartext s box nonce p [] e (omega (arith, h)))
        ∙ ap
            (λ y. ok (
              if y
              then on_tcp (framed_as y (length (plain p)) ++ plain p)
              else on_udp (framed_as y (length (plain p)) ++ plain p)))
            t,
    ap
          (λ r. record {
            result = recv_packet_udp s classes box r.0 u;
            tcp_connected = c;
            world = r.1;
          })
          sent
        ∙ ap
            (λ r. record {
              result = of_server r (from_server u source);
              tcp_connected = c;
              world = w';
            })
            (decode_packet-cleartext s classes box p e hid hm f (omega (arith, h))),
  )
