-- ===== src/Net/Manager.antt =====
-- src/net/manager.cpp: the connection's state, and the handlers that change it.
-- A handler runs as one step. Times are in milliseconds. What a handler asks of other objects (a
-- message to the user, a packet to send, the active server) is appended to `asked`.
pub mod Steps
pub mod States
pub mod Recovery
use globed.Common.{
  ℕ, ◌+◌, ◌-◌, Bool, true, false, not, ◌&&◌, ◌||◌, List, [], ◌∷◌, ◌++◌, Option, none, some, ltb,
  if◌then◌else◌,
}

pub data ConnectionState : Type 0 where
  disconnected tcp_connecting authenticating established : ConnectionState

-- The messages to the user, the packets, and the calls of the other managers.
pub data Ask : Type 0 where
  connect_failed connection_lost abrupt_disconnect handshake_timeout recovery_failed recovered
        protocol_mismatch :
      Ask
  send_handshake send_disconnect send_claim_thread send_keepalive send_keepalive_tcp : Ask
  clear_session set_up_session start_keepalive start_pings : Ask
  set_active : List ℕ → Ask

pub data ConnectError : Type 0 where
  already_trying no_auth_token : ConnectError

-- `server_id` stands for the address too, which is set along with it.
pub record Manager : Type 0 where
  pub state : ConnectionState
  pub socket_connected : Bool
  pub server_id : List ℕ
  pub last_received_packet : ℕ
  pub last_sent_keepalive : ℕ
  pub last_tcp_exchange : ℕ
  pub suspended : Bool
  pub standalone : Bool
  pub recovering : Bool
  pub recover_attempt : ℕ
  pub was_from_recovery : Bool
  pub cancelling_recovery : Bool
  pub secret_key : ℕ
  pub server_tps : ℕ
  pub asked : List Ask

abbrev is_established : ConnectionState → Bool
is_established disconnected = false
is_established tcp_connecting = false
is_established authenticating = false
is_established established = true

abbrev pub ask : List Ask → Manager → Manager
ask as' m = record m { asked = m.asked ++ as' }

-- `disconnect`. The packet that says goodbye goes out before the socket is closed.
unfoldable pub disconnect : Bool → Bool → Manager → Manager
disconnect quiet noclear m =
    ask
      ((if not quiet && is_established m.state then send_disconnect ∷ [] else [])
        ++ (if noclear then [] else clear_session ∷ []))
      (record m {
        state = disconnected;
        socket_connected = false;
        standalone = false;
        recovering = false;
        cancelling_recovery = false;
        recover_attempt = 0;
      })

-- The part of `connect` behind its first check.
unfoldable pub connect_fresh :
    List ℕ → Bool → Bool → Bool → ℕ → Manager → Option ConnectError × Manager
connect_fresh server_id standalone from_recovery has_token now m =
    let m' : Manager = record m {
      standalone = standalone;
      was_from_recovery = from_recovery;
      last_received_packet = now;
      last_sent_keepalive = now;
      last_tcp_exchange = now;
    } in
    if not standalone && not has_token then (some no_auth_token, m') else (
      none,
      record m' {
        server_id = server_id;
        recovering = false;
        recover_attempt = 0;
        state = tcp_connecting;
      },
    )

unfoldable pub connect_from :
    ConnectionState → List ℕ → Bool → Bool → Bool → ℕ → Manager → Option ConnectError × Manager
unfolding connect_fresh disconnect
connect_from disconnected id s r t now m = connect_fresh id s r t now m
connect_from tcp_connecting id s r t now m = (some already_trying, m)
connect_from authenticating id s r t now m = (some already_trying, m)
connect_from established id s r t now m = connect_fresh id s r t now (disconnect false false m)

-- `connect`.
unfoldable pub connect : List ℕ → Bool → Bool → Bool → ℕ → Manager → Option ConnectError × Manager
unfolding connect_from
connect id s r t now m = connect_from m.state id s r t now m

-- `cancelReconnect`, `suspend`, `resume`.
unfoldable pub cancel_reconnect : Manager → Manager
cancel_reconnect m = record m { cancelling_recovery = true }

unfoldable pub set_suspended : Bool → Manager → Manager
set_suspended b m = record m { suspended = b }

-- `onLoggedIn`, up to the login as an administrator.
unfoldable pub on_logged_in : ℕ → ℕ → Manager → Manager
on_logged_in tps key m =
    let again = m.recovering || m.was_from_recovery in
    ask
      ((if again then recovered ∷ [] else [])
        ++ (set_active m.server_id ∷ set_up_session ∷ send_claim_thread ∷ []))
      (record m {
        server_tps = tps;
        secret_key = key;
        state = established;
        recovering = if again then false else m.recovering;
        recover_attempt = if again then 0 else m.recover_attempt;
      })

-- `onProtocolMismatch`, of a release.
unfoldable pub on_protocol_mismatch : Manager → Manager
unfolding disconnect
on_protocol_mismatch m = disconnect true false (ask (protocol_mismatch ∷ []) m)

-- `failedRecovery`.
unfoldable pub failed_recovery : Manager → Manager
failed_recovery m =
    ask (recovery_failed ∷ [])
      (record m { recovering = false; recover_attempt = 0; state = disconnected })

-- What the main thread takes from the task queue: each with the time at which it is handled, a packet
-- with whether the TCP socket is still open after the attempt to send it, and the ping of the active
-- server with whether its last ping is unknown.
pub data Task : Type 0 where
  task_ping_servers : Task
  task_send_packet : (now : ℕ) (use_tcp stays_open : Bool) → Task
  task_ping_active : (now : ℕ) (ping_unknown : Bool) → Task

-- What a round of the main thread finds: the tasks that it takes from the queue if it comes to that,
-- the clock, the outcome of `socket.connect`, that of
-- `sendRecoveryData`, what a failure of either leaves the socket's flag at, and whether the recovery
-- is cancelled while the thread sleeps.
pub record Round : Type 0 where
  pub now : ℕ
  pub opened : Bool
  pub left_open : Bool
  pub recovery_sent : Bool
  pub cancelled : Bool
  pub tasks : List Task

-- `handleSendPacketTask`: an error is logged, and that is all.
unfoldable pub handle_send_packet_task : ℕ → Bool → Bool → Manager → Manager
handle_send_packet_task now use_tcp stays_open m = record m {
  last_tcp_exchange = if use_tcp then now else m.last_tcp_exchange;
  socket_connected = m.socket_connected && stays_open;
}

-- `handlePingActive`.
unfoldable pub handle_ping_active : ℕ → Bool → Manager → Manager
handle_ping_active now ping_unknown m =
    if is_established m.state && (ltb 5000 (now - m.last_sent_keepalive) || ping_unknown)
    then ask (send_keepalive ∷ start_keepalive ∷ []) (record m { last_sent_keepalive = now })
    else m

unfoldable pub handle_task : Task → Manager → Manager
unfolding handle_send_packet_task handle_ping_active
handle_task task_ping_servers m = ask (start_pings ∷ []) m
handle_task (task_send_packet now use_tcp stays_open) m =
    handle_send_packet_task now use_tcp stays_open m
handle_task (task_ping_active now ping_unknown) m = handle_ping_active now ping_unknown m

-- The task queue, until nothing comes for a while.
unfoldable pub run_tasks : List Task → Manager → Manager
unfolding handle_task
run_tasks [] m = m
run_tasks (t ∷ ts) m = run_tasks ts (handle_task t m)

-- A failed attempt at recovery.
unfoldable pub attempt_failed : Bool → Manager → Manager
unfolding failed_recovery
attempt_failed cancelled m =
    let attempt = m.recover_attempt + 1 in
    if ltb 3 attempt
    then failed_recovery (record m { recover_attempt = attempt })
    else if m.cancelling_recovery || cancelled
    then record m {
      recovering = false;
      recover_attempt = 0;
      state = disconnected;
      cancelling_recovery = true;
    }
    else record m { recover_attempt = attempt }

-- The first branch of `threadMainFunc`, and the second.
unfoldable pub first_connection : Round → Manager → Manager
unfolding disconnect run_tasks
first_connection e m =
    if e.opened
    then run_tasks e.tasks
        (ask (send_handshake ∷ []) (record m { socket_connected = true; state = authenticating }))
    else ask (connect_failed ∷ [])
        (disconnect true false (record m { socket_connected = e.left_open }))

unfoldable pub recover : Round → Manager → Manager
unfolding attempt_failed
recover e m =
    if e.opened
    then (if e.recovery_sent
        then record m { socket_connected = true; state = authenticating }
        else attempt_failed e.cancelled
            (record m { socket_connected = e.left_open; state = authenticating }))
    else attempt_failed e.cancelled (record m { socket_connected = e.left_open })

-- `maybeSendKeepalive`: a silent server, and then the TCP keepalive.
unfoldable pub check_silence : ℕ → Manager → Manager
check_silence now m =
    let since_packet = now - m.last_received_packet in
    let since_keepalive = now - m.last_sent_keepalive in
    if ltb 20000 since_packet
    then record m { socket_connected = false }
    else if ltb 10000 since_packet && ltb 3000 since_keepalive
    then ask (send_keepalive ∷ start_keepalive ∷ []) (record m { last_sent_keepalive = now })
    else m

unfoldable pub maybe_send_keepalive : ℕ → Manager → Manager
unfolding check_silence
maybe_send_keepalive now m =
    if ltb 60000 (now - m.last_tcp_exchange)
    then ask (send_keepalive_tcp ∷ []) (check_silence now m)
    else check_silence now m

-- The branches of `threadMainFunc` on the state, and what follows them. A branch that
-- returns early leaves the task queue alone.
unfoldable pub main_in : ConnectionState → Round → Manager → Manager
unfolding first_connection recover maybe_send_keepalive disconnect run_tasks
main_in disconnected e m = run_tasks e.tasks m
main_in tcp_connecting e m = if m.recovering then recover e m else first_connection e m
main_in established e m =
    if m.socket_connected
    then run_tasks e.tasks (maybe_send_keepalive e.now m)
    else ask (connection_lost ∷ []) (record m {
      state = tcp_connecting;
      recovering = true;
      cancelling_recovery = false;
      recover_attempt = 0;
    })
main_in authenticating e m =
    if m.socket_connected
    then (if not m.recovering && ltb 5000 (e.now - m.last_received_packet)
        then ask (handshake_timeout ∷ []) (disconnect true false m)
        else run_tasks e.tasks m)
    else ask (abrupt_disconnect ∷ []) (disconnect true false m)

-- `threadMainFunc`.
unfoldable pub main_round : Round → Manager → Manager
unfolding main_in
main_round e m = if m.suspended then m else main_in m.state e m

-- The listener for `LoginRecoveryFailecPacket`.
unfoldable pub on_login_recovery_failed : Bool → ℕ → Manager → Option ConnectError × Manager
unfolding disconnect connect
on_login_recovery_failed has_token now m =
    let m' = disconnect true false m in connect m'.server_id m'.standalone true has_token now m'
