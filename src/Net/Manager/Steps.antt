-- ===== src/Net/Manager/Steps.antt =====
-- src/net/manager.cpp: the handlers and events as steps, from any thread and in any order.
use globed.Common.{ℕ, Bool, false, List, []}
use globed.Net.Manager.{
  Manager, Round, disconnected, connect, disconnect, cancel_reconnect, set_suspended, on_logged_in,
  on_protocol_mismatch, on_login_recovery_failed, main_round,
}

-- Before anything has happened.
abbrev pub initial : Manager
initial = record {
  state = disconnected;
  socket_connected = false;
  server_id = [];
  last_received_packet = 0;
  last_sent_keepalive = 0;
  last_tcp_exchange = 0;
  suspended = false;
  standalone = false;
  recovering = false;
  recover_attempt = 0;
  was_from_recovery = false;
  cancelling_recovery = false;
  secret_key = 0;
  server_tps = 0;
  asked = [];
}

-- What can happen, from any thread, in any order.
pub data Step : Manager → Manager → Type 0 where
  connects :
      (id : List ℕ) (s r t : Bool) (now : ℕ) (m : Manager) → Step m (connect id s r t now m).1
  disconnects : (quiet noclear : Bool) (m : Manager) → Step m (disconnect quiet noclear m)
  cancels : (m : Manager) → Step m (cancel_reconnect m)
  suspends : (b : Bool) (m : Manager) → Step m (set_suspended b m)
  logs_in : (tps key : ℕ) (m : Manager) → Step m (on_logged_in tps key m)
  mismatches : (m : Manager) → Step m (on_protocol_mismatch m)
  recovery_fails : (t : Bool) (now : ℕ) (m : Manager) → Step m (on_login_recovery_failed t now m).1
  receives : (now : ℕ) (m : Manager) → Step m (record m { last_received_packet = now })
  loses_socket : (m : Manager) → Step m (record m { socket_connected = false })
  runs : (e : Round) (m : Manager) → Step m (main_round e m)

pub data Reachable : Manager → Type 0 where
  start : Reachable initial
  next : (m m' : Manager) → Reachable m → Step m m' → Reachable m'
