-- ===== src/Examples/Machines.antt =====
-- Runs of the network manager.
use globed.Common.{◌≡◌, refl, true, false, [], ◌∷◌, some}
use globed.Net.Manager.{
  Manager, Round, task_ping_servers, task_send_packet, disconnected, authenticating, connect,
  main_round, ask, connection_lost, recovery_failed, on_login_recovery_failed, no_auth_token,
}
use globed.Net.Manager.Steps.{initial, start, next, connects, runs}
use globed.Net.Manager.States.{IsConsistent, Reachable-IsConsistent}
use globed.Net.Manager.Recovery.{
  rounds, deaf, lost, recovering_from, IsWaiting, round_after_round, four_attempts, silent_recovery,
  standalone_forgotten,
}

abbrev answered : Round
answered = record {
  now = 9;
  opened = true;
  left_open = true;
  recovery_sent = true;
  cancelled = false;
  tasks = task_send_packet 10 true true ∷ [];
}

abbrev connecting : Manager
connecting = (connect (49 ∷ []) true false false 5 initial).1

Reachable-IsConsistent_example : IsConsistent (main_round answered connecting)
Reachable-IsConsistent_example = Reachable-IsConsistent (main_round answered connecting) (
    next connecting (main_round answered connecting)
      (next initial connecting start (connects (49 ∷ []) true false false 5 initial))
      (runs answered connecting))

four_attempts_example :
    (rounds 1 (deaf 7 []) (lost initial) ≡ recovering_from 0 (ask (connection_lost ∷ []) initial))
    × (rounds 4 (deaf 7 []) (lost initial) ≡ recovering_from 3 (ask (connection_lost ∷ []) initial))
    × (rounds 5 (deaf 7 []) (lost initial)
        ≡ ask
            (recovery_failed ∷ [])
            (record (recovering_from 0 (ask (connection_lost ∷ []) initial)) {
              state = disconnected;
              recovering = false;
            }))
four_attempts_example = four_attempts 7 [] initial

abbrev waiting : Manager
waiting = record initial { state = authenticating; recovering = true; socket_connected = true }

abbrev late : Round
late = deaf 1000000 (task_ping_servers ∷ task_send_packet 1000000 false true ∷ [])

silent_recovery_example : IsWaiting (round_after_round (late ∷ late ∷ []) waiting)
silent_recovery_example =
    silent_recovery (late ∷ late ∷ []) waiting ((refl, (refl, tt)), ((refl, (refl, tt)), tt))
      (record { stage = refl; again = refl; connected = refl })

standalone_forgotten_example :
    ((on_login_recovery_failed false 3 (record waiting { standalone = true })).0
      ≡ some no_auth_token)
    × ((on_login_recovery_failed false 3 (record waiting { standalone = true })).1.state
        ≡ disconnected)
standalone_forgotten_example = standalone_forgotten 3 (record waiting { standalone = true })
