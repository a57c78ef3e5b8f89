-- ===== src/Net/Dispatch.antt =====
-- src/net/manager.cpp: `threadRecvFunc`, `callListener`, `handlePingResponse` and the internal
-- listeners of `setupGlobalListeners`, on the state of the manager together with that of the game
-- servers.
pub mod Rejection
use globed.Common.{ℕ, Bool, true, false, ◌||◌, List, [], ◌∷◌, ◌++◌, if◌then◌else◌}
use globed.Net.GameSocket.{Packet}
use globed.Net.Manager.{
  Manager, ConnectionState, disconnected, tcp_connecting, authenticating, established, disconnect,
  on_logged_in, on_protocol_mismatch, on_login_recovery_failed,
}
use globed.Managers.GameServers.{
  GameServers, finish_ping, finish_keepalive, set_active, clear_active,
}
use globed.Packets.Server.{
  PingResponsePacket, ping_response_packet_class, CryptoHandshakeResponsePacket,
  crypto_handshake_response_packet_class, KeepaliveResponsePacket, keepalive_response_packet_class,
  KeepaliveTcpResponsePacket, keepalive_tcp_response_packet_class, ServerDisconnectPacket,
  server_disconnect_packet_class, LoggedInPacket, logged_in_packet_class, LoginFailedPacket,
  login_failed_packet_class, ProtocolMismatchPacket, protocol_mismatch_packet_class,
  ClaimThreadFailedPacket, claim_thread_failed_packet_class, LoginRecoveryFailecPacket,
  login_recovery_failec_packet_class,
}

-- A packet, by the class that an internal listener casts it to; `other` has no such listener.
pub data Incoming : Type 1 where
  ping_response : PingResponsePacket → Incoming
  crypto_handshake_response : CryptoHandshakeResponsePacket → Incoming
  keepalive_response : KeepaliveResponsePacket → Incoming
  keepalive_tcp_response : KeepaliveTcpResponsePacket → Incoming
  server_disconnect : ServerDisconnectPacket → Incoming
  logged_in : LoggedInPacket → Incoming
  login_failed : LoginFailedPacket → Incoming
  protocol_mismatch : ProtocolMismatchPacket → Incoming
  claim_thread_failed : ClaimThreadFailedPacket → Incoming
  login_recovery_failed : LoginRecoveryFailecPacket → Incoming
  other : Packet → Incoming

unfoldable pub packet_of : Incoming → Packet
packet_of (ping_response p) = record { class = ping_response_packet_class; members = p }
packet_of (crypto_handshake_response p) = record {
  class = crypto_handshake_response_packet_class;
  members = p;
}
packet_of (keepalive_response p) = record { class = keepalive_response_packet_class; members = p }
packet_of (keepalive_tcp_response p) = record {
  class = keepalive_tcp_response_packet_class;
  members = p;
}
packet_of (server_disconnect p) = record { class = server_disconnect_packet_class; members = p }
packet_of (logged_in p) = record { class = logged_in_packet_class; members = p }
packet_of (login_failed p) = record { class = login_failed_packet_class; members = p }
packet_of (protocol_mismatch p) = record { class = protocol_mismatch_packet_class; members = p }
packet_of (claim_thread_failed p) = record { class = claim_thread_failed_packet_class; members = p }
packet_of (login_recovery_failed p) = record {
  class = login_recovery_failec_packet_class;
  members = p;
}
packet_of (other p) = p

-- The errors that the user is shown.
pub data Notice : Type 0 where
  disconnected_by authentication_failed : List ℕ → Notice
  claim_failed : Notice

-- `queue` is the listener pool's, for the main thread; `handshakes` wait for it too.
pub record Client : Type 1 where
  pub manager : Manager
  pub servers : GameServers
  pub has_token : Bool
  pub notices : List Notice
  pub handshakes : List CryptoHandshakeResponsePacket
  pub queue : List Packet

-- `disconnect(true)`, with what it does to the game servers.
unfoldable pub leave : Client → Client
unfolding disconnect clear_active
leave c = record c { manager = disconnect true false c.manager; servers = clear_active c.servers }

-- `disconnectWithMessage`, and the other errors.
unfoldable pub notify : Notice → Client → Client
notify n c = record c { notices = c.notices ++ n ∷ [] }

-- The internal listener of the packet's class, where there is one.
unfoldable pub call_internal : ℕ → Incoming → Client → Client
unfolding leave notify finish_keepalive on_logged_in set_active on_protocol_mismatch clear_active
    on_login_recovery_failed
call_internal now (ping_response p) c = c
call_internal now (crypto_handshake_response p) c = record c { handshakes = c.handshakes ++ p ∷ [] }
call_internal now (keepalive_response p) c = record c {
  servers = finish_keepalive p.player_count now c.servers;
}
call_internal now (keepalive_tcp_response p) c = c
call_internal now (server_disconnect p) c = leave (notify (disconnected_by p.message) c)
call_internal now (logged_in p) c = record c {
  manager = on_logged_in p.tps p.secret_key c.manager;
  servers = set_active c.manager.server_id c.servers;
}
call_internal now (login_failed p) c =
    leave (record (notify (authentication_failed p.message) c) { has_token = false })
call_internal now (protocol_mismatch p) c = record c {
  manager = on_protocol_mismatch c.manager;
  servers = clear_active c.servers;
}
call_internal now (claim_thread_failed p) c = leave (notify claim_failed c)
call_internal now (login_recovery_failed p) c = record c {
  manager = (on_login_recovery_failed c.has_token now c.manager).1;
  servers = clear_active c.servers;
}
call_internal now (other p) c = c

-- `callListener`: the internal listener, which is never final, and then the pool's queue.
unfoldable pub call_listener : ℕ → Incoming → Client → Client
unfolding call_internal packet_of
call_listener now i c =
    let c' = call_internal now i c in record c' { queue = c'.queue ++ packet_of i ∷ [] }

-- What `recvPacket` returns.
pub data Answer : Type 1 where
  received : Incoming → Bool → Answer
  timed_out failed : Answer

unfoldable pub handle_packet : ℕ → Incoming → Bool → Client → Client
unfolding call_listener finish_ping
handle_packet now (ping_response p) from_server c = record c {
  servers = finish_ping p.id p.player_count now c.servers;
}
handle_packet now i from_server c =
    if from_server
    then call_listener now i
        (record c { manager = record c.manager { last_received_packet = now } })
    else c

-- `onConnectionError` shows an error in a debug build only.
unfoldable pub handle_answer : ℕ → Answer → Client → Client
unfolding handle_packet
handle_answer now (received i from) c = handle_packet now i from c
handle_answer now timed_out c = c
handle_answer now failed c = c

abbrev pub is_connecting : ConnectionState → Bool
is_connecting disconnected = false
is_connecting tcp_connecting = true
is_connecting authenticating = false
is_connecting established = false

-- `threadRecvFunc`.
unfoldable pub recv_round : ℕ → Answer → Client → Client
unfolding handle_answer
recv_round now a c =
    if c.manager.suspended || is_connecting c.manager.state then c else handle_answer now a c
