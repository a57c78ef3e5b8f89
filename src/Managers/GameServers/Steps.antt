-- ===== src/Managers/GameServers/Steps.antt =====
-- src/managers/game_server.cpp: the methods as steps, in any order.
use mathlib.Core.Option.{some-injective}
use globed.Common.{
  ℕ, ◌≤◌, ◌≡◌, refl, List, [], ◌∷◌, Option, none, some, arith, ltb, length, All, Bool-cases,
  Option-cases, inl, inr,
}
use globed.Common.Keys.{text_key, nat_key}
use globed.Common.Maps.{
  Map, lookup, erase, length-assign, length-erase, All-assign, All-erase, All-lookup, has_value,
}
use globed.Managers.GameServers.{
  GameServerData, GameServers, add_server, add_or_update_server, clear, set_active, clear_active,
  clear_all_except, update_cache, save_standalone, begin_ping, start_ping, finish_in, end_ping,
  finish_ping, start_keepalive, finish_keepalive, alive_after, is_empty,
}

-- A server stands under its own id, and has at most 51 pings pending.
pub record IsKept (p : List ℕ × GameServerData) : Type 0 where
  pub own_id : p.1.server.id ≡ p.0
  pub few : length p.1.pending_pings ≤ 51

abbrev pub IsWell : GameServers → Type 0
IsWell m = All IsKept m.servers

-- The methods that change the servers. A throw ends the program's step and changes nothing.
pub data Step (m : GameServers) : GameServers → Type 0 where
  updates :
      (id name address region : List ℕ) → Step m (add_or_update_server id name address region m)
  adds : (id name address region : List ℕ) → Step m (add_server id name address region m)
  clears : Step m (clear m)
  activates : (id : List ℕ) → Step m (set_active id m)
  deactivates : Step m (clear_active m)
  keeps_one : (id : List ℕ) (m' : GameServers) → clear_all_except id m ≡ some m' → Step m m'
  caches : (response : List ℕ) → Step m (update_cache response m)
  saves : (addr : List ℕ) → Step m (save_standalone addr m)
  pings :
      (ping_id now : ℕ) (id : List ℕ) (m' : GameServers)
      → start_ping ping_id now id m ≡ some m'
      → Step m m'
  answers : (ping_id n now : ℕ) → Step m (finish_ping ping_id n now m)
  keeps_alive :
      (ping_id now : ℕ) (m' : GameServers) → start_keepalive ping_id now m ≡ some m' → Step m m'
  kept_alive : (n now : ℕ) → Step m (finish_keepalive n now m)

update-IsWell :
    (id name address region : List ℕ) (m : GameServers)
    → IsWell m
    → IsWell (add_or_update_server id name address region m)
unfolding add_or_update_server
update-IsWell id name address region m w =
    All-assign IsKept id _ m.servers (record { own_id = refl; few = omega arith }) w

abbrev no_pings : Map ℕ ℕ
no_pings = []

begin-IsKept :
    (ping_id now : ℕ) (id : List ℕ) (d : GameServerData)
    → IsKept (id, d)
    → IsKept (id, begin_ping ping_id now d)
unfolding begin_ping
begin-IsKept ping_id now id d k = elim (Bool-cases (ltb 50 (length d.pending_pings))) [
  | inl t ↦ record {
    own_id = k.own_id;
    few = rw t (omega (arith, length-assign ping_id now no_pings));
  }
  | inr t ↦ record {
    own_id = k.own_id;
    few = rw t (ground (arith, length-assign ping_id now d.pending_pings));
  }
]

-- Of a method that may throw.
abbrev IsWellResult : Option GameServers → Type 0
IsWellResult none = Unit
IsWellResult (some m) = IsWell m

IsWell-result : (o : Option GameServers) (m : GameServers) → o ≡ some m → IsWellResult o → IsWell m
IsWell-result none m h w = absurd (ground arith)
IsWell-result (some a) m h w = rw (← some-injective a m h) w

start-IsWell :
    (ping_id now : ℕ) (id : List ℕ) (m : GameServers)
    → IsWell m
    → IsWellResult (start_ping ping_id now id m)
unfolding start_ping
start-IsWell ping_id now id m w = elim (Option-cases (lookup id m.servers)) [
  | inl t ↦ rw (start_ping, t) tt
  | inr p ↦
      rw (start_ping, p.1)
        (All-assign IsKept id _ m.servers
          (begin-IsKept ping_id now id p.0 (All-lookup IsKept id m.servers p.0 w p.1)) w)
]

alive_after-IsWell :
    (ping_id : ℕ) (o : Option GameServers) → IsWellResult o → IsWellResult (alive_after ping_id o)
unfolding alive_after
alive_after-IsWell ping_id none w = tt
alive_after-IsWell ping_id (some m) w = w

keepalive-IsWell :
    (ping_id now : ℕ) (m : GameServers) → IsWell m → IsWellResult (start_keepalive ping_id now m)
unfolding start_keepalive
keepalive-IsWell ping_id now m w = elim (Bool-cases (is_empty m.active)) [
  | inl t ↦ rw (start_keepalive, t) w
  | inr t ↦
      rw (start_keepalive, t) (alive_after-IsWell ping_id _ (start-IsWell ping_id now m.active m w))
]

except-IsWell : (id : List ℕ) (m : GameServers) → IsWell m → IsWellResult (clear_all_except id m)
unfolding clear_all_except
except-IsWell id m w = elim (Option-cases (lookup id m.servers)) [
  | inl t ↦ rw (clear_all_except, t) tt
  | inr p ↦ rw (clear_all_except, p.1) (All-lookup IsKept id m.servers p.0 w p.1, tt)
]

activate-IsWell : (id : List ℕ) (m : GameServers) → IsWell m → IsWell (set_active id m)
unfolding set_active
activate-IsWell id m w = elim (Bool-cases (has_value (lookup id m.servers))) [
  | inl t ↦ rw (set_active, t) w
  | inr t ↦ rw (set_active, t) w
]

finish-IsWell :
    (ping_id n now : ℕ) (m : Map (List ℕ) GameServerData)
    → All IsKept m
    → All IsKept (finish_in ping_id n now m)
unfolding finish_in end_ping
finish-IsWell ping_id n now [] w = tt
finish-IsWell ping_id n now ((k, d) ∷ m) w = elim (Option-cases (lookup ping_id d.pending_pings)) [
  | inl t ↦ rw (finish_in, t) (w.0, finish-IsWell ping_id n now m w.1)
  | inr p ↦
      rw (finish_in, p.1)
        (
          record {
            own_id = w.0.own_id;
            few = omega (arith, length-erase ping_id d.pending_pings, w.0.few);
          },
          w.1,
        )
]

-- Each method that ends, whatever its arguments, keeps every server under its own id and with at
-- most 51 pings pending.
pub Step-IsWell : {m m' : GameServers} → Step m m' → IsWell m → IsWell m'
unfolding add_server clear clear_active update_cache save_standalone finish_ping finish_keepalive
Step-IsWell {m} (updates id name address region) w = update-IsWell id name address region m w
Step-IsWell {m} (adds id name address region) w =
    update-IsWell id name address region (record m { servers = erase id m.servers })
      (All-erase IsKept id m.servers w)
Step-IsWell clears w = tt
Step-IsWell {m} (activates id) w = activate-IsWell id m w
Step-IsWell deactivates w = w
Step-IsWell {m} {m'} (keeps_one id _ h) w =
    IsWell-result (clear_all_except id m) m' h (except-IsWell id m w)
Step-IsWell (caches response) w = w
Step-IsWell (saves addr) w = w
Step-IsWell {m} {m'} (pings ping_id now id _ h) w =
    IsWell-result (start_ping ping_id now id m) m' h (start-IsWell ping_id now id m w)
Step-IsWell {m} (answers ping_id n now) w = finish-IsWell ping_id n now m.servers w
Step-IsWell {m} {m'} (keeps_alive ping_id now _ h) w =
    IsWell-result (start_keepalive ping_id now m) m' h (keepalive-IsWell ping_id now m w)
Step-IsWell {m} (kept_alive n now) w = finish-IsWell m.active_ping_id n now m.servers w
