-- ===== src/Net/Manager/States.antt =====
-- src/net/manager.cpp: what holds of the connection's state after any sequence of steps.
use globed.Common.{
  ℕ, ◌+◌, ◌-◌, ◌≤◌, ◌≡◌, refl, Bool, true, false, not, ◌&&◌, ◌||◌, List, [], ◌∷◌, ltb,
  if◌then◌else◌, arith, inl, inr, ◌⊎◌,
}
use globed.Net.Manager.{
  ConnectionState, disconnected, tcp_connecting, authenticating, established, Manager, Round, ask,
  disconnect, connect, connect_from, connect_fresh, cancel_reconnect, set_suspended, on_logged_in,
  on_protocol_mismatch, failed_recovery, attempt_failed, first_connection, recover, check_silence,
  maybe_send_keepalive, protocol_mismatch, Task, task_ping_servers, task_send_packet,
  task_ping_active, handle_send_packet_task, handle_ping_active, handle_task, run_tasks, main_in,
  main_round, on_login_recovery_failed,
}
use globed.Net.Manager.Steps.{
  Step, connects, disconnects, cancels, suspends, logs_in, mismatches, recovery_fails, receives,
  loses_socket, runs, Reachable, start, next,
}

abbrev may_recover : ConnectionState → Bool
may_recover disconnected = false
may_recover tcp_connecting = true
may_recover authenticating = true
may_recover established = false

-- Attempts are counted only during a recovery, up to three, and a recovery goes on only while
-- connecting or authenticating.
pub record IsConsistent (m : Manager) : Type 0 where
  pub attempts : m.recover_attempt ≤ 3
  pub idle : (m.recovering ≡ true) ⊎ (m.recover_attempt ≡ 0)
  stage : (m.recovering ≡ false) ⊎ (may_recover m.state ≡ true)

abbrev calm : {m : Manager} → m.recovering ≡ false → m.recover_attempt ≡ 0 → IsConsistent m
calm r a = record { attempts = omega arith; idle = inr a; stage = inl r }

disconnect-IsConsistent : (q n : Bool) (m : Manager) → IsConsistent (disconnect q n m)
unfolding disconnect
disconnect-IsConsistent q n m = calm refl refl

connect_fresh-IsConsistent :
    (id : List ℕ) (s r t : Bool) (now : ℕ) (m : Manager)
    → IsConsistent m
    → IsConsistent (connect_fresh id s r t now m).1
unfolding connect_fresh
connect_fresh-IsConsistent id true r t now m c = calm refl refl
connect_fresh-IsConsistent id false r true now m c = calm refl refl
connect_fresh-IsConsistent id false r false now m c = record {
  attempts = c.attempts;
  idle = c.idle;
  stage = c.stage;
}

connect_from-IsConsistent :
    (st : ConnectionState) (id : List ℕ) (s r t : Bool) (now : ℕ) (m : Manager)
    → IsConsistent m
    → IsConsistent (connect_from st id s r t now m).1
unfolding connect_from
connect_from-IsConsistent disconnected id s r t now m c =
    connect_fresh-IsConsistent id s r t now m c
connect_from-IsConsistent tcp_connecting id s r t now m c = c
connect_from-IsConsistent authenticating id s r t now m c = c
connect_from-IsConsistent established id s r t now m c =
    connect_fresh-IsConsistent id s r t now (disconnect false false m)
      (disconnect-IsConsistent false false m)

connect-IsConsistent :
    (id : List ℕ) (s r t : Bool) (now : ℕ) (m : Manager)
    → IsConsistent m
    → IsConsistent (connect id s r t now m).1
unfolding connect
connect-IsConsistent id s r t now m c = connect_from-IsConsistent m.state id s r t now m c

on_logged_in-IsConsistent :
    (tps key : ℕ) (m : Manager) → IsConsistent m → IsConsistent (on_logged_in tps key m)
unfolding on_logged_in
on_logged_in-IsConsistent tps key m c = record {
  attempts = ground (arith, c.attempts);
  idle = ground (arith, c.idle);
  stage = inl (ground arith);
}

if-IsConsistent :
    (b : Bool) (x y : Manager)
    → (b ≡ true → IsConsistent x)
    → (b ≡ false → IsConsistent y)
    → IsConsistent (if b then x else y)
if-IsConsistent true x y f g = f refl
if-IsConsistent false x y f g = g refl

attempt_failed-IsConsistent :
    (b : Bool) (m : Manager)
    → m.recovering ≡ true
    → may_recover m.state ≡ true
    → IsConsistent (attempt_failed b m)
unfolding attempt_failed failed_recovery
attempt_failed-IsConsistent b m r st =
    if-IsConsistent (ltb 3 (m.recover_attempt + 1)) _ _ (λ e. calm refl refl)
      λ e.
        if-IsConsistent (m.cancelling_recovery || b) _ _ (λ e'. calm refl refl)
          λ e'. record { attempts = ground (arith, e); idle = inl r; stage = inr st }

handle_task-IsConsistent :
    (t : Task) (m : Manager) → IsConsistent m → IsConsistent (handle_task t m)
unfolding handle_task handle_send_packet_task handle_ping_active
handle_task-IsConsistent task_ping_servers m c = record {
  attempts = c.attempts;
  idle = c.idle;
  stage = c.stage;
}
handle_task-IsConsistent (task_send_packet now t o) m c = record {
  attempts = c.attempts;
  idle = c.idle;
  stage = c.stage;
}
handle_task-IsConsistent (task_ping_active now u) m c =
    if-IsConsistent _ _ _ (λ h. record { attempts = c.attempts; idle = c.idle; stage = c.stage })
      (λ h. c)

run_tasks-IsConsistent :
    (ts : List Task) (m : Manager) → IsConsistent m → IsConsistent (run_tasks ts m)
unfolding run_tasks
run_tasks-IsConsistent [] m c = c
run_tasks-IsConsistent (t ∷ ts) m c =
    run_tasks-IsConsistent ts (handle_task t m) (handle_task-IsConsistent t m c)

first_connection-IsConsistent :
    (e : Round) (m : Manager)
    → m.recovering ≡ false
    → IsConsistent m
    → IsConsistent (first_connection e m)
unfolding first_connection disconnect
first_connection-IsConsistent e m r c =
    if-IsConsistent e.opened _ _
      (λ h.
        run_tasks-IsConsistent e.tasks _
          (record { attempts = c.attempts; idle = c.idle; stage = inl r }))
      (λ h. calm refl refl)

recover-IsConsistent :
    (e : Round) (m : Manager)
    → m.recovering ≡ true
    → m.state ≡ tcp_connecting
    → IsConsistent m
    → IsConsistent (recover e m)
unfolding recover
recover-IsConsistent e m r st c =
    if-IsConsistent e.opened _ _
      (λ h.
        if-IsConsistent e.recovery_sent _ _
          (λ h'. record { attempts = c.attempts; idle = inl r; stage = inr refl })
          (λ h'. attempt_failed-IsConsistent e.cancelled _ r refl))
      (λ h. attempt_failed-IsConsistent e.cancelled _ r (rw st refl))

check_silence-IsConsistent :
    (now : ℕ) (m : Manager) → IsConsistent m → IsConsistent (check_silence now m)
unfolding check_silence
check_silence-IsConsistent now m c =
    if-IsConsistent (ltb 20000 (now - m.last_received_packet)) _ _
      (λ h. record { attempts = c.attempts; idle = c.idle; stage = c.stage })
      (λ h.
        if-IsConsistent
          (ltb 10000 (now - m.last_received_packet) && ltb 3000 (now - m.last_sent_keepalive)) _ _
          (λ h'. record { attempts = c.attempts; idle = c.idle; stage = c.stage }) (λ h'. c))

maybe_send_keepalive-IsConsistent :
    (now : ℕ) (m : Manager) → IsConsistent m → IsConsistent (maybe_send_keepalive now m)
unfolding maybe_send_keepalive
maybe_send_keepalive-IsConsistent now m c =
    let c' = check_silence-IsConsistent now m c in
    if-IsConsistent (ltb 60000 (now - m.last_tcp_exchange)) _ _
      (λ h. record { attempts = c'.attempts; idle = c'.idle; stage = c'.stage }) (λ h. c')

main_in-IsConsistent :
    (e : Round) (m : Manager) (st : ConnectionState)
    → m.state ≡ st
    → IsConsistent m
    → IsConsistent (main_in st e m)
unfolding main_in disconnect
main_in-IsConsistent e m disconnected h c = run_tasks-IsConsistent e.tasks m c
main_in-IsConsistent e m tcp_connecting h c =
    if-IsConsistent m.recovering _ _ (λ r. recover-IsConsistent e m r h c)
      (λ r. first_connection-IsConsistent e m r c)
main_in-IsConsistent e m authenticating h c =
    if-IsConsistent m.socket_connected _ _
      (λ k.
        if-IsConsistent (not m.recovering && ltb 5000 (e.now - m.last_received_packet)) _ _
          (λ t. calm refl refl) (λ t. run_tasks-IsConsistent e.tasks m c))
      (λ k. calm refl refl)
main_in-IsConsistent e m established h c =
    if-IsConsistent m.socket_connected _ _
      (λ k. run_tasks-IsConsistent e.tasks _ (maybe_send_keepalive-IsConsistent e.now m c))
      (λ k. record { attempts = omega arith; idle = inr refl; stage = inr refl })

main_round-IsConsistent : (e : Round) (m : Manager) → IsConsistent m → IsConsistent (main_round e m)
unfolding main_round
main_round-IsConsistent e m c =
    if-IsConsistent m.suspended _ _ (λ h. c) (λ h. main_in-IsConsistent e m m.state refl c)

Step-IsConsistent : {m m' : Manager} → Step m m' → IsConsistent m → IsConsistent m'
unfolding cancel_reconnect set_suspended on_protocol_mismatch on_login_recovery_failed
Step-IsConsistent (connects id s r t now m) c = connect-IsConsistent id s r t now m c
Step-IsConsistent (disconnects q n m) c = disconnect-IsConsistent q n m
Step-IsConsistent (cancels m) c = record { attempts = c.attempts; idle = c.idle; stage = c.stage }
Step-IsConsistent (suspends b m) c = record {
  attempts = c.attempts;
  idle = c.idle;
  stage = c.stage;
}
Step-IsConsistent (logs_in tps key m) c = on_logged_in-IsConsistent tps key m c
Step-IsConsistent (mismatches m) c =
    disconnect-IsConsistent true false (ask (protocol_mismatch ∷ []) m)
Step-IsConsistent (recovery_fails t now m) c =
    let m' = disconnect true false m in
    connect-IsConsistent m'.server_id m'.standalone true t now m'
      (disconnect-IsConsistent true false m)
Step-IsConsistent (receives now m) c = record {
  attempts = c.attempts;
  idle = c.idle;
  stage = c.stage;
}
Step-IsConsistent (loses_socket m) c = record {
  attempts = c.attempts;
  idle = c.idle;
  stage = c.stage;
}
Step-IsConsistent (runs e m) c = main_round-IsConsistent e m c

-- Whatever happens in whatever order, at most three failed attempts are ever on record, none is
-- outside of a recovery, and a recovery is never on record while the manager is disconnected or
-- fully connected.
pub Reachable-IsConsistent : (m : Manager) → Reachable m → IsConsistent m
Reachable-IsConsistent _ start = calm refl refl
Reachable-IsConsistent _ (next m m' r t) = Step-IsConsistent t (Reachable-IsConsistent m r)
