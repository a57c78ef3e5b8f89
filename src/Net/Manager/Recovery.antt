-- ===== src/Net/Manager/Recovery.antt =====
-- src/net/manager.cpp, `threadMainFunc`: how a lost connection is recovered, and how it is given up.
use globed.Common.{
  ℕ, zero, suc, ◌-◌, ◌≡◌, refl, ap, ◌∙◌, not, ◌⊎◌, Bool, true, false, ◌&&◌, List, [], ◌∷◌, some,
  All, ltb, if◌then◌else◌, Bool-cases, inl, inr,
}
use globed.Net.Manager.{
  disconnected, tcp_connecting, authenticating, established, Manager, Round, Task,
  task_ping_servers, task_send_packet, task_ping_active, handle_send_packet_task,
  handle_ping_active, handle_task, run_tasks, ask, connection_lost, recovery_failed,
  handshake_timeout, abrupt_disconnect, no_auth_token, disconnect, connect, connect_from,
  connect_fresh, failed_recovery, attempt_failed, recover, main_in, main_round,
  on_login_recovery_failed,
}

-- So many rounds of the main thread, which all find the same.
abbrev pub rounds : ℕ → Round → Manager → Manager
rounds zero e m = m
rounds (suc n) e m = main_round e (rounds n e m)

-- A recovery that nothing answers.
abbrev pub recovering_from : ℕ → Manager → Manager
recovering_from n m = record m {
  state = tcp_connecting;
  socket_connected = false;
  suspended = false;
  recovering = true;
  cancelling_recovery = false;
  recover_attempt = n;
}

abbrev pub deaf : ℕ → List Task → Round
deaf now tasks = record {
  now = now;
  opened = false;
  left_open = false;
  recovery_sent = false;
  cancelled = false;
  tasks = tasks;
}

-- The manager at the moment its socket breaks down.
abbrev pub lost : Manager → Manager
lost m = record m { state = established; socket_connected = false; suspended = false }

-- When an established connection breaks down and its server no longer answers, the first round
-- starts a recovery, each of the next three leaves one more failed attempt on record, and the fifth
-- gives up with a message: the server is tried four times.
pub four_attempts :
    (now : ℕ) (tasks : List Task) (m : Manager)
    → (rounds 1 (deaf now tasks) (lost m) ≡ recovering_from 0 (ask (connection_lost ∷ []) m))
      × (rounds 4 (deaf now tasks) (lost m) ≡ recovering_from 3 (ask (connection_lost ∷ []) m))
      × (rounds 5 (deaf now tasks) (lost m)
          ≡ ask (recovery_failed ∷ []) (record (recovering_from 0 (ask (connection_lost ∷ []) m)) {
            state = disconnected;
            recovering = false;
          }))
unfolding main_round main_in recover attempt_failed failed_recovery
four_attempts now tasks m = (refl, refl, refl)

-- A task that leaves the TCP socket open.
abbrev pub keeps_open : Task → Bool
keeps_open task_ping_servers = true
keeps_open (task_send_packet now use_tcp stays_open) = stays_open
keeps_open (task_ping_active now ping_unknown) = true

abbrev pub IsHarmless : Round → Type 0
IsHarmless e = All (λ (t : Task). keeps_open t ≡ true) e.tasks

-- Rounds of the main thread, one after the other.
abbrev pub round_after_round : List Round → Manager → Manager
round_after_round [] m = m
round_after_round (e ∷ es) m = round_after_round es (main_round e m)

-- The socket is open, and the server has not said yet whether it takes the client back.
pub record IsWaiting (m : Manager) : Type 0 where
  pub stage : m.state ≡ authenticating
  pub again : m.recovering ≡ true
  pub connected : m.socket_connected ≡ true

if-IsWaiting :
    (b : Bool) (x y : Manager) → IsWaiting x → IsWaiting y → IsWaiting (if b then x else y)
if-IsWaiting true x y u v = u
if-IsWaiting false x y u v = v

run_tasks-IsWaiting :
    (ts : List Task) (m : Manager)
    → All (λ (t : Task). keeps_open t ≡ true) ts
    → IsWaiting m
    → IsWaiting (run_tasks ts m)
unfolding run_tasks handle_task handle_send_packet_task handle_ping_active
run_tasks-IsWaiting [] m o w = w
run_tasks-IsWaiting (task_ping_servers ∷ ts) m o w =
    run_tasks-IsWaiting ts (handle_task task_ping_servers m) o.1
      (record { stage = w.stage; again = w.again; connected = w.connected })
run_tasks-IsWaiting (task_send_packet now t s ∷ ts) m o w =
    run_tasks-IsWaiting ts (handle_task (task_send_packet now t s) m) o.1
      (record { stage = w.stage; again = w.again; connected = rw (w.connected, o.0) refl })
run_tasks-IsWaiting (task_ping_active now u ∷ ts) m o w =
    run_tasks-IsWaiting ts (handle_task (task_ping_active now u) m) o.1
      (if-IsWaiting _ _ _ (record { stage = w.stage; again = w.again; connected = w.connected }) w)

-- A round has no other branch for such a manager than the tasks, unless it is suspended.
waiting_round :
    (e : Round) (m : Manager)
    → IsWaiting m
    → (main_round e m ≡ m) ⊎ (main_round e m ≡ run_tasks e.tasks m)
unfolding main_round main_in
waiting_round e m w =
    let late = ltb 5000 (e.now - m.last_received_packet) in
    let out = ask (handshake_timeout ∷ []) (disconnect true false m) in
    let gone = ask (abrupt_disconnect ∷ []) (disconnect true false m) in
    let stay = run_tasks e.tasks m in
    elim (Bool-cases m.suspended) [
      | inl p ↦ inl (ap (λ t. if t then m else main_in m.state e m) p)
      | inr p ↦ inr (
          ap (λ t. if t then m else main_in m.state e m) p
          ∙ ap (λ st. main_in st e m) w.stage
          ∙ ap (λ t. if t then (if not m.recovering && late then out else stay) else gone)
              w.connected
          ∙ ap (λ t. if not t && late then out else stay) w.again)
    ]

main_round-IsWaiting :
    (e : Round) (m : Manager) → IsHarmless e → IsWaiting m → IsWaiting (main_round e m)
main_round-IsWaiting e m o w = elim (waiting_round e m w) [
  | inl q ↦ rw q w
  | inr q ↦ rw q (run_tasks-IsWaiting e.tasks m o w)
]

-- However many rounds the main thread runs, at whatever times and with whatever tasks in its queue,
-- as long as no task finds the socket broken: a recovery that authenticates still does, with its
-- socket open. No time limit ends it, unlike a first login.
pub silent_recovery :
    (es : List Round) (m : Manager)
    → All IsHarmless es
    → IsWaiting m
    → IsWaiting (round_after_round es m)
silent_recovery [] m o w = w
silent_recovery (e ∷ es) m o w =
    silent_recovery es (main_round e m) o.1 (main_round-IsWaiting e m o.0 w)

-- When the server refuses to recover the login of any connection, a standalone one included, the
-- manager asks for an authentication token, and without one it ends disconnected.
pub standalone_forgotten :
    (now : ℕ) (m : Manager)
    → ((on_login_recovery_failed false now m).0 ≡ some no_auth_token)
      × ((on_login_recovery_failed false now m).1.state ≡ disconnected)
unfolding on_login_recovery_failed disconnect connect connect_from connect_fresh
standalone_forgotten now m = (refl, refl)
