-- ===== src/Net/GameSocket/Exchange.antt =====
-- src/net/game_socket.cpp: `poll`, `recvPacketUDP`, `recvPacket`, `sendPacket`, `sendPacketTo`,
-- `sendRecoveryData`. A packet is not dumped to a file.
use globed.Common.{
  ℕ, Bool, true, false, List, [], Option, none, some, Result, ok, err, ◌==◌, if◌then◌else◌, length,
}
use globed.Common.Int.{ℤ}
use globed.Data.Buffer.{ByteBuffer, of_bytes}
use globed.Data.Serial.Numbers.{i32, u32}
use globed.Crypto.Box.{Sodium}
use globed.Net.TcpSocket.{RecvAnswer, SocketError, Step, returned, refused}
use globed.Net.UdpSocket.{UdpSocket, UdpError, Address, RecvFrom, receive, send_to}
use globed.Net.GameSocket.{Failure, Packet, encode_packet, decode_packet, recv_packet_tcp}
use globed.Packets.Base.{PacketClass}

pub data PollResult : Type 0 where
  none_ready tcp_ready udp_ready both_ready : PollResult

-- What can go wrong in an exchange.
pub data ExchangeError : Type 0 where
  timed_out poll_failed udp_recv_failed disconnected tcp_to_udp partly_sent : ExchangeError
  of_packet : Failure → ExchangeError
  of_tcp : SocketError → ExchangeError
  of_udp : UdpError → ExchangeError

unfoldable ready : Bool → Bool → PollResult
ready true true = both_ready
ready true false = tcp_ready
ready false true = udp_ready
ready false false = none_ready

-- `poll`: of the UDP socket alone while the TCP socket is not connected, else of both; `none` is an
-- error of the system.
unfoldable poll : Bool → Option Bool → Option (Bool × Bool) → Result ExchangeError PollResult
unfolding ready
poll false none both = err poll_failed
poll false (some udp) both = ok (ready false udp)
poll true udp none = err poll_failed
poll true udp (some (t, u)) = ok (ready t u)

pub record ReceivedPacket : Type 1 where
  pub packet : Packet
  pub from_connected : Bool

-- What a receiving call returns, beside the TCP socket's flag and the connection after it.
pub record Received (World : Type 0) : Type 1 where
  pub result : Result ExchangeError ReceivedPacket
  pub tcp_connected : Bool
  pub world : World

unfoldable pub of_server : Result Failure Packet → Bool → Result ExchangeError ReceivedPacket
of_server (err e) c = err (of_packet e)
of_server (ok p) c = ok (record { packet = p; from_connected = c })

unfoldable received_tcp : {World : Type 0} → Step World (Result Failure Packet) → Received World
unfolding of_server
received_tcp (returned r c w) = record { result = of_server r true; tcp_connected = c; world = w }
received_tcp (refused e c w) = record { result = err (of_tcp e); tcp_connected = c; world = w }

module _ (s : Sodium) (classes : List PacketClass) (box : Option s.Key) where
  unfoldable pub decode_datagram : Option (List ℕ × Bool) → Result ExchangeError ReceivedPacket
  unfolding of_server
  decode_datagram none = err udp_recv_failed
  decode_datagram (some (bytes, from)) =
      of_server (decode_packet s classes box (of_bytes bytes)) from

  -- `recvPacketUDP`.
  unfoldable pub recv_packet_udp : RecvFrom → UdpSocket → Result ExchangeError ReceivedPacket
  unfolding decode_datagram receive
  recv_packet_udp answer u = decode_datagram (receive answer u)

  module _ {World : Type 0} (recv : ℕ → World → RecvAnswer × World)
      (recvfrom : World → RecvFrom × World) where
    unfoldable pub recv_ready : PollResult → UdpSocket → Bool → World → Received World
    unfolding received_tcp recv_packet_udp
    recv_ready none_ready u c w = record { result = err timed_out; tcp_connected = c; world = w }
    recv_ready udp_ready u c w =
        let r = recvfrom w in
        record { result = recv_packet_udp r.0 u; tcp_connected = c; world = r.1 }
    recv_ready tcp_ready u c w = received_tcp (recv_packet_tcp s classes box recv c w)
    recv_ready both_ready u c w = received_tcp (recv_packet_tcp s classes box recv c w)

    -- `recvPacket`, of what `poll` yields.
    unfoldable pub recv_packet :
        Result ExchangeError PollResult → UdpSocket → Bool → World → Received World
    unfolding recv_ready
    recv_packet (err e) u c w = record { result = err e; tcp_connected = c; world = w }
    recv_packet (ok p) u c w = recv_ready p u c w

  -- What goes out: on the stream, or as a datagram.
  pub data Outgoing : Type 0 where
    on_tcp on_udp : List ℕ → Outgoing

  unfoldable pub outgoing_of : Bool → Result Failure ByteBuffer → Result ExchangeError Outgoing
  outgoing_of tcp (err e) = err (of_packet e)
  outgoing_of tcp (ok b) = ok (if tcp then on_tcp b.bytes else on_udp b.bytes)

  -- `sendPacket`, up to the call of the socket.
  unfoldable pub send_packet : Bool → List ℕ → Packet → Result ExchangeError Outgoing
  unfolding outgoing_of
  send_packet connected nonce p =
      if connected
      then outgoing_of p.class.use_tcp (encode_packet s box nonce p (of_bytes []))
      else err disconnected

  unfoldable sent_whole : ℕ → Result UdpError ℕ → Result ExchangeError (Unit {0})
  sent_whole n (err e) = err (of_udp e)
  sent_whole n (ok k) = if k == n then ok tt else err partly_sent

  unfoldable send_encoded :
      (List ℕ → Address → Option ℕ)
      → Option Address
      → Result Failure ByteBuffer
      → Result ExchangeError (Unit {0})
  unfolding send_to sent_whole
  send_encoded sendto address (err e) = err (of_packet e)
  send_encoded sendto address (ok b) = sent_whole (length b.bytes) (send_to sendto b.bytes address)

  -- `sendPacketTo`.
  unfoldable send_packet_to :
      (List ℕ → Address → Option ℕ)
      → Option Address
      → List ℕ
      → Packet
      → Result ExchangeError (Unit {0})
  unfolding send_encoded
  send_packet_to sendto address nonce p =
      if p.class.use_tcp
      then err tcp_to_udp
      else send_encoded sendto address (encode_packet s box nonce p (of_bytes []))

-- The bytes of `sendRecoveryData`.
unfoldable recovery_data : ℤ → ℕ → List ℕ
unfolding i32 u32
recovery_data account_id secret_key =
    (u32.write secret_key (i32.write account_id (of_bytes []))).bytes
