-- ===== src/Net/Dispatch/Rejection.antt =====
-- src/net/manager.cpp: whom the receiving thread listens to, and how a connection is turned down.
use globed.Common.{ℕ, true, false, ◌≡◌, ◌⊎◌, refl, [], ◌∷◌, ◌++◌, inl, inr, Bool-cases, ◌||◌}
use globed.Net.Manager.{disconnect, disconnected, on_protocol_mismatch}
use globed.Managers.GameServers.{finish_ping, clear_active, save_last_connected}
use globed.Net.Dispatch.{
  Client, Incoming, ping_response, crypto_handshake_response, keepalive_response,
  keepalive_tcp_response, server_disconnect, logged_in, login_failed, protocol_mismatch,
  claim_thread_failed, login_recovery_failed, other, packet_of, received, handle_packet,
  handle_answer, recv_round, is_connecting, call_listener, call_internal, leave, notify,
}
use globed.Packets.Server.{PingResponsePacket}

-- What a packet from anyone else than the connected server can do.
abbrev pub ForeignEffect : ℕ → Incoming → Client → Client → Type 1
ForeignEffect now i c c' =
    (c' ≡ c)
    ⊎ ((p : PingResponsePacket) × (i ≡ ping_response p)
        × (c' ≡ record c { servers = finish_ping p.id p.player_count now c.servers }))

foreign :
    (now : ℕ) (i : Incoming) (c : Client) → ForeignEffect now i c (handle_packet now i false c)
unfolding handle_packet
foreign now (ping_response p) c = inr (p, refl, refl)
foreign now (crypto_handshake_response p) c = inl refl
foreign now (keepalive_response p) c = inl refl
foreign now (keepalive_tcp_response p) c = inl refl
foreign now (server_disconnect p) c = inl refl
foreign now (logged_in p) c = inl refl
foreign now (login_failed p) c = inl refl
foreign now (protocol_mismatch p) c = inl refl
foreign now (claim_thread_failed p) c = inl refl
foreign now (login_recovery_failed p) c = inl refl
foreign now (other p) c = inl refl

-- A packet that does not come from the connected server changes nothing, unless it answers a ping:
-- then it changes the game servers alone, by finishing that ping. Neither the connection nor what
-- the listeners are given depends on it.
pub recv_round-foreign :
    (now : ℕ) (i : Incoming) (c : Client)
    → ForeignEffect now i c (recv_round now (received i false) c)
unfolding recv_round handle_answer
recv_round-foreign now i c =
    elim (Bool-cases (c.manager.suspended || is_connecting c.manager.state)) [
      | inl e ↦ rw (recv_round, e) (inl refl)
      | inr e ↦ rw (recv_round, e) (foreign now i c)
    ]

-- The packets by which a server turns a client away.
pub data IsRejection : Incoming → Type 1 where
  kicked : (p : _) → IsRejection (server_disconnect p)
  refused : (p : _) → IsRejection (login_failed p)
  mismatched : (p : _) → IsRejection (protocol_mismatch p)
  unclaimed : (p : _) → IsRejection (claim_thread_failed p)

pub record IsOut (i : Incoming) (c c' : Client) : Type 1 where
  pub state : c'.manager.state ≡ disconnected
  pub socket : c'.manager.socket_connected ≡ false
  pub quiet : c'.manager.recovering ≡ false
  pub active : c'.servers.active ≡ []
  listed : c'.servers.servers ≡ c.servers.servers
  queued : c'.queue ≡ c.queue ++ packet_of i ∷ []

rejected :
    (now : ℕ) (i : Incoming) (c : Client) → IsRejection i → IsOut i c (handle_packet now i true c)
unfolding handle_packet call_listener call_internal leave notify disconnect clear_active
    save_last_connected on_protocol_mismatch
rejected now _ c (kicked p) = record {
  state = refl;
  socket = refl;
  quiet = refl;
  active = refl;
  listed = refl;
  queued = refl;
}
rejected now _ c (refused p) = record {
  state = refl;
  socket = refl;
  quiet = refl;
  active = refl;
  listed = refl;
  queued = refl;
}
rejected now _ c (mismatched p) = record {
  state = refl;
  socket = refl;
  quiet = refl;
  active = refl;
  listed = refl;
  queued = refl;
}
rejected now _ c (unclaimed p) = record {
  state = refl;
  socket = refl;
  quiet = refl;
  active = refl;
  listed = refl;
  queued = refl;
}

-- While the receiving thread is not paused, a kick, a failed login, a protocol mismatch or a failed
-- claim of the thread from the connected server leaves the manager disconnected, its socket closed,
-- without a recovery in progress and without an active server; the list of servers stays, and the
-- packet is queued once for the other listeners.
pub recv_round-rejection :
    (now : ℕ) (i : Incoming) (c : Client)
    → IsRejection i
    → (c.manager.suspended || is_connecting c.manager.state) ≡ false
    → IsOut i c (recv_round now (received i true) c)
unfolding recv_round handle_answer
recv_round-rejection now i c r e = rw (recv_round, e) (rejected now i c r)
