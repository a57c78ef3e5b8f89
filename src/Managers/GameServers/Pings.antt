-- ===== src/Managers/GameServers/Pings.antt =====
-- src/managers/game_server.cpp: `startPing` and `finishPing`, one after the other.
use globed.Common.{
  ℕ, ◌-◌, ◌/◌, ◌^◌, ◌≤◌, ◌<◌, ◌≡◌, refl, ap, ◌∙◌, false, List, [], ◌∷◌, none, some, arith, ltb,
  if◌then◌else◌, length, All, Bool-cases, inl, inr,
}
use globed.Common.Int.{pos, sub_ℕ}
use globed.Common.Keys.{same_text, nat_key, text_key}
use globed.Common.Maps.{Map, lookup, assign, lookup-assign, lookup-erase, same_refl}
use globed.Data.Serial.Numbers.{of_pattern-pattern_of}
use globed.Managers.GameServers.{
  GameServerData, GameServers, begin_ping, start_ping, end_ping, finish_in, finish_ping, ping_of,
  as_millis,
}

abbrev IsIdle : ℕ → List ℕ × GameServerData → Type 0
IsIdle ping_id p = lookup ping_id p.1.pending_pings ≡ none

pending-begin :
    (ping_id now : ℕ) (d : GameServerData)
    → lookup ping_id (begin_ping ping_id now d).pending_pings ≡ some now
unfolding begin_ping
pending-begin ping_id now d =
    lookup-assign ping_id ping_id now
      (if ltb 50 (length d.pending_pings) then [] else d.pending_pings)
    ∙ rw (same_refl ping_id) refl

-- A ping that one server alone has pending is that server's.
finish_in-assign :
    (ping_id n now start : ℕ) (id : List ℕ) (b : GameServerData) (m : Map (List ℕ) GameServerData)
    → All (IsIdle ping_id) m
    → lookup ping_id b.pending_pings ≡ some start
    → finish_in ping_id n now (assign id b m) ≡ assign id (end_ping ping_id n now start b) m
unfolding finish_in assign
finish_in-assign ping_id n now start id b [] h e = rw (finish_in, e) refl
finish_in-assign ping_id n now start id b ((k, v) ∷ m) h e = elim (Bool-cases (same_text k id)) [
  | inl t ↦ rw (assign, t, finish_in, e) refl
  | inr t ↦
      rw (assign, t, finish_in, h.0)
        (ap (◌∷◌ (k, v)) (finish_in-assign ping_id n now start id b m h.1 e))
]

-- A server's answer that comes after less than 2^31 milliseconds is measured in whole milliseconds.
ping_of-pos :
    (now start : ℕ)
    → start ≤ now
    → (now - start) / 10 ^ 6 < 2 ^ 31
    → ping_of now start ≡ pos ((now - start) / 10 ^ 6)
unfolding ping_of as_millis
ping_of-pos now start h k =
    let e : sub_ℕ now start ≡ pos (now - start) = ground arith in
    rw (ping_of, e) (of_pattern-pattern_of 4 (pos ((now - start) / 10 ^ 6)) (omega (arith, k)))

-- A ping under a number that no server has pending, sent to a server that is listed, and answered
-- after less than 2^31 milliseconds: the server then shows the whole milliseconds between the two
-- and the number of players in the answer, keeps its name, region and address and has no such ping
-- pending, and every other server is as it was.
pub finish_ping-start_ping :
    (ping_id n start now : ℕ) (id other : List ℕ) (m : GameServers) (d : GameServerData)
    → same_text id other ≡ false
    → lookup id m.servers ≡ some d
    → All (IsIdle ping_id) m.servers
    → start ≤ now
    → (now - start) / 10 ^ 6 < 2 ^ 31
    → (m' : GameServers) × (d' : GameServerData) × (start_ping ping_id start id m ≡ some m')
      × (lookup id (finish_ping ping_id n now m').servers ≡ some d')
      × (d'.server ≡ record d.server { ping = pos ((now - start) / 10 ^ 6); player_count = n })
      × (lookup ping_id d'.pending_pings ≡ none)
      × (lookup other (finish_ping ping_id n now m').servers ≡ lookup other m.servers)
unfolding start_ping finish_ping
finish_ping-start_ping ping_id n start now id other m d o here idle h k =
    let b = begin_ping ping_id start d in
    let e = end_ping ping_id n now start b in
    let after : finish_in ping_id n now (assign id b m.servers) ≡ assign id e m.servers =
      finish_in-assign ping_id n now start id b m.servers idle (pending-begin ping_id start d) in
    (
      record m { servers = assign id b m.servers },
      e,
      rw (start_ping, here) refl,
      ap (lookup id) after ∙ lookup-assign id id e m.servers ∙ rw (same_refl id) refl,
      unfold end_ping begin_ping in
          ap (λ p. record d.server { ping = p; player_count = n }) (ping_of-pos now start h k),
      unfold end_ping in lookup-erase ping_id ping_id b.pending_pings ∙ rw (same_refl ping_id) refl,
      ap (lookup other) after ∙ lookup-assign id other e m.servers ∙ rw o refl,
    )
