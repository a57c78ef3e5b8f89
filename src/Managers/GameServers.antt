-- ===== src/Managers/GameServers.antt =====
-- src/managers/game_server.hpp, src/managers/game_server.cpp. The locks make each method one step;
-- `servers.at` of a server that is not there, and a failed `GLOBED_REQUIRE`, throw: `none`.
-- Times are nanoseconds of the clock.
pub mod Pings
pub mod Cache
pub mod Steps
use globed.Common.{
  ℕ, suc, ◌/◌, ◌%◌, ◌^◌, Bool, true, false, List, [], ◌∷◌, Option, none, some, ltb, if◌then◌else◌,
  length,
}
use globed.Common.Int.{ℤ, pos, negsuc, sub_ℕ}
use globed.Common.Keys.{nat_key, text_key}
use globed.Common.Maps.{Map, lookup, assign, erase, has_value}
use globed.Data.Serial.Numbers.{pattern_of, of_pattern}

pub record GameServer : Type 0 where
  pub id : List ℕ
  pub name : List ℕ
  pub region : List ℕ
  pub address : List ℕ
  pub ping : ℤ
  pub player_count : ℕ

pub record GameServerData : Type 0 where
  pub server : GameServer
  pub pending_pings : Map ℕ ℕ

-- `InnerData`, with the flag and the values that `Mod` saves.
pub record GameServers : Type 0 where
  pub servers : Map (List ℕ) GameServerData
  pub active : List ℕ
  pub active_ping_id : ℕ
  pub cached_server_response : List ℕ
  pub saved_standalone : List ℕ
  pub saved_last_connected : List ℕ
  pub saved_response : List ℕ

-- What a server that is there keeps: its ping, and its players as a `uint16_t`.
unfoldable pub kept_ping : Option GameServerData → ℤ
kept_ping none = negsuc 0
kept_ping (some d) = d.server.ping

unfoldable pub kept_players : Option GameServerData → ℕ
kept_players none = 0
kept_players (some d) = d.server.player_count % 2 ^ 16

unfoldable pub add_or_update_server : List ℕ → List ℕ → List ℕ → List ℕ → GameServers → GameServers
unfolding lookup assign kept_ping kept_players
add_or_update_server id name address region m =
    let old = lookup id m.servers in
    record m {
      servers =
          assign id
            (record {
              server = record {
                id = id;
                name = name;
                region = region;
                address = address;
                ping = kept_ping old;
                player_count = kept_players old;
              };
              pending_pings = [];
            })
            m.servers;
    }

unfoldable pub add_server : List ℕ → List ℕ → List ℕ → List ℕ → GameServers → GameServers
unfolding erase
add_server id name address region m =
    add_or_update_server id name address region (record m { servers = erase id m.servers })

unfoldable pub clear : GameServers → GameServers
clear m = record m { servers = [] }

unfoldable pub count : GameServers → ℕ
count m = length m.servers

unfoldable pub save_last_connected : List ℕ → GameServers → GameServers
save_last_connected addr m = record m { saved_last_connected = addr }

unfoldable pub save_standalone : List ℕ → GameServers → GameServers
save_standalone addr m = record m { saved_standalone = addr }

unfoldable pub set_active : List ℕ → GameServers → GameServers
unfolding lookup save_last_connected
set_active id m =
    if has_value (lookup id m.servers) then save_last_connected id (record m { active = id }) else m

unfoldable pub clear_active : GameServers → GameServers
unfolding save_last_connected
clear_active m = save_last_connected [] (record m { active = [] })

unfoldable pub clear_all_except : List ℕ → GameServers → Option GameServers
unfolding lookup
clear_all_except id m = elim (lookup id m.servers) [
  | none ↦ none
  | some d ↦ some (record m { servers = (id, d) ∷ [] })
]

unfoldable get_server : List ℕ → GameServers → Option GameServer
unfolding lookup
get_server id m = elim (lookup id m.servers) [ none ↦ none | some d ↦ some d.server ]

unfoldable get_active_server : GameServers → Option GameServer
unfolding get_server
get_active_server m = elim m.active [ [] ↦ none | c ∷ cs ↦ get_server m.active m ]

unfoldable get_active_ping : GameServers → Option ℤ
unfolding get_active_server
get_active_ping m = elim (get_active_server m) [ none ↦ none | some s ↦ some s.ping ]

-- `out.insert` of each server under the id that it carries; an id that is there stays.
unfoldable pub insert_all :
    Map (List ℕ) GameServerData → Map (List ℕ) GameServer → Map (List ℕ) GameServer
unfolding lookup
insert_all [] out = out
insert_all ((k, d) ∷ m) out =
    let id = d.server.id in
    insert_all m (if has_value (lookup id out) then out else (id, d.server) ∷ out)

unfoldable get_all_servers : GameServers → Map (List ℕ) GameServer
unfolding insert_all
get_all_servers m = insert_all m.servers []

unfoldable pub update_cache : List ℕ → GameServers → GameServers
update_cache response m = record m { cached_server_response = response; saved_response = response }

unfoldable clear_cache : GameServers → GameServers
unfolding update_cache
clear_cache m = update_cache [] m

-- More than fifty pending pings are dropped.
unfoldable pub begin_ping : ℕ → ℕ → GameServerData → GameServerData
unfolding assign
begin_ping ping_id now d = record d {
  pending_pings =
      assign ping_id now (if ltb 50 (length d.pending_pings) then [] else d.pending_pings);
}

-- `ping_id` comes from the random generator.
unfoldable pub start_ping : ℕ → ℕ → List ℕ → GameServers → Option GameServers
unfolding lookup assign
start_ping ping_id now id m = elim (lookup id m.servers) [
  | none ↦ none
  | some d ↦ some (record m { servers = assign id (begin_ping ping_id now d) m.servers })
]

-- Whole milliseconds, towards 0, as an `int`.
unfoldable pub as_millis : ℤ → ℤ
as_millis (pos n) = pos (n / 10 ^ 6)
as_millis (negsuc n) = sub_ℕ 0 (suc n / 10 ^ 6)

unfoldable pub ping_of : ℕ → ℕ → ℤ
unfolding as_millis pattern_of of_pattern
ping_of now start = of_pattern 4 (pattern_of 4 (as_millis (sub_ℕ now start)))

unfoldable pub end_ping : ℕ → ℕ → ℕ → ℕ → GameServerData → GameServerData
unfolding erase
end_ping ping_id player_count now start d = record {
  server = record d.server { ping = ping_of now start; player_count = player_count };
  pending_pings = erase ping_id d.pending_pings;
}

-- The first server that the ping is pending for.
unfoldable pub finish_in : ℕ → ℕ → ℕ → Map (List ℕ) GameServerData → Map (List ℕ) GameServerData
unfolding lookup
finish_in ping_id player_count now [] = []
finish_in ping_id player_count now ((k, d) ∷ m) =
    let rest = finish_in ping_id player_count now m in
    elim (lookup ping_id d.pending_pings) [
      | none ↦ (k, d) ∷ rest
      | some start ↦ (k, end_ping ping_id player_count now start d) ∷ m
    ]

unfoldable pub finish_ping : ℕ → ℕ → ℕ → GameServers → GameServers
unfolding finish_in
finish_ping ping_id player_count now m = record m {
  servers = finish_in ping_id player_count now m.servers;
}

abbrev pub is_empty : List ℕ → Bool
is_empty [] = true
is_empty (c ∷ cs) = false

unfoldable pub alive_after : ℕ → Option GameServers → Option GameServers
alive_after ping_id none = none
alive_after ping_id (some m) = some (record m { active_ping_id = ping_id })

unfoldable pub start_keepalive : ℕ → ℕ → GameServers → Option GameServers
unfolding start_ping alive_after
start_keepalive ping_id now m =
    if is_empty m.active then some m else alive_after ping_id (start_ping ping_id now m.active m)

unfoldable pub finish_keepalive : ℕ → ℕ → GameServers → GameServers
unfolding finish_ping
finish_keepalive player_count now m = finish_ping m.active_ping_id player_count now m
