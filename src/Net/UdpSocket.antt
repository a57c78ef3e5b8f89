-- ===== src/Net/UdpSocket.antt =====
-- src/net/udp_socket.cpp, and `sameSockaddr` of src/util/net.cpp. The answers of the system's calls
-- and of `NetworkAddress::resolve` are parameters.
use globed.Common.{
  ℕ, ◌≡◌, ◌↔◌, Bool, true, false, not, ◌||◌, List, Option, none, some, Result, ok, err, ◌==◌,
  if◌then◌else◌, arith,
}

-- `sockaddr_in`.
pub record Address : Type 0 where
  pub family : ℕ
  pub port : ℕ
  pub addr : ℕ

unfoldable pub same_sockaddr : Address → Address → Bool
same_sockaddr s t =
    if not (s.family == t.family) || not (s.port == t.port) then false else s.addr == t.addr

pub record UdpSocket : Type 0 where
  pub connected : Bool
  pub dest_addr : Address

pub data UdpError : Type 0 where
  unresolved not_connected last_error : UdpError

-- `connect`, of the resolved address; a failure leaves the socket as it is.
unfoldable pub connect : Option Address → UdpSocket → Result UdpError UdpSocket
connect none u = err unresolved
connect (some a) u = ok (record { connected = true; dest_addr = a })

unfoldable pub disconnect : UdpSocket → UdpSocket
disconnect u = record u { connected = false }

-- The count that `sendto` returns, `none` for -1.
unfoldable sent_count : Option ℕ → Result UdpError ℕ
sent_count none = err last_error
sent_count (some n) = ok n

unfoldable pub send : (List ℕ → Address → Option ℕ) → List ℕ → UdpSocket → Result UdpError ℕ
unfolding sent_count
send sendto bytes u =
    if u.connected then sent_count (sendto bytes u.dest_addr) else err not_connected

unfoldable pub send_to : (List ℕ → Address → Option ℕ) → List ℕ → Option Address → Result UdpError ℕ
unfolding sent_count
send_to sendto bytes none = err unresolved
send_to sendto bytes (some a) = sent_count (sendto bytes a)

-- What `recvfrom` yields: the datagram and where it comes from.
pub data RecvFrom : Type 0 where
  datagram : List ℕ → Address → RecvFrom
  recv_failed : RecvFrom

-- `receive`: the bytes, and whether they come from the server that the socket is connected to.
unfoldable pub receive : RecvFrom → UdpSocket → Option (List ℕ × Bool)
unfolding same_sockaddr
receive recv_failed u = none
receive (datagram bytes source) u =
    some (bytes, if u.connected then same_sockaddr source u.dest_addr else false)

-- `close`: whether it succeeds, and whether the descriptor is closed.
unfoldable close : Bool → UdpSocket → Bool × (Bool × UdpSocket)
close closes u =
    if u.connected then (closes, (true, record u { connected = false })) else (true, (false, u))

-- A source passes for the server exactly if its family, its port and its address are the server's.
same_sockaddr_iff : (a b : Address) → (same_sockaddr a b ≡ true) ↔ (a ≡ b)
unfolding same_sockaddr
same_sockaddr_iff a b = ground arith
