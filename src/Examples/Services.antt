-- ===== src/Examples/Services.antt =====
-- Runs of the game servers, the roles, the account, the datagrams and the receiving thread.
use globed.Common.{
  ℕ, ◌-◌, ◌/◌, ◌^◌, ◌≡◌, refl, Option, none, some, Result, ok, List, [], ◌∷◌, ◌++◌, arith, true,
  false, All,
}
use globed.Common.Int.{ℤ, pos, negsuc}
use globed.Common.Keys.{text_key, nat_key}
use globed.Common.Maps.{lookup}
use globed.Data.Types.Misc.{Color3, GameServerEntry, game_server_entry}
use globed.Data.Types.User.{GameServerRole}
use globed.Data.Serial.Members.{struct}
use globed.Data.Serial.Text.{string}
use globed.Data.Serial.Containers.{vector}
use globed.Data.Words.{bytes_be}
use globed.Managers.GameServers.{
  GameServer, GameServerData, GameServers, start_ping, finish_ping, add_or_update_server,
}
use globed.Managers.GameServers.Pings.{finish_ping-start_ping}
use globed.Managers.GameServers.Cache.{
  server_magic, listing, load_from_cache, IsListed, load_from_cache-listing,
}
use globed.Managers.GameServers.Steps.{IsWell, updates, Step-IsWell}
use globed.Managers.Roles.{compute, find_role, int_min}
use globed.Managers.Roles.Priority.{IsAtMost, IsAttained, compute-priority}
use globed.Managers.Accounts.{
  Codecs, Account, store_admin_password, get_admin_password, get_auth_key, get_admin_password-store,
}
use globed.Net.UdpSocket.{Address, UdpSocket, RecvFrom, datagram}
use globed.Net.GameSocket.{Packet, match_packet}
use globed.Net.GameSocket.Encode.{plain}
use globed.Net.GameSocket.Exchange.{on_udp, send_packet, recv_packet, udp_ready}
use globed.Net.GameSocket.Datagram.{from_server, recv_packet-send_packet}
use globed.Net.Manager.Steps.{initial}
use globed.Net.Dispatch.{Client, received, server_disconnect, recv_round}
use globed.Net.Dispatch.Rejection.{
  ForeignEffect, IsOut, kicked, recv_round-foreign, recv_round-rejection,
}
use globed.Packets.Base.{packet_header}
use globed.Packets.Client.{ping_packet_class, ping_packet}
use globed.Examples.Toys.{toy_box, next_byte, some_nonce}

abbrev here : List ℕ
here = 104 ∷ []

abbrev server_of_id : List ℕ → GameServer
server_of_id id = record {
  id = id;
  name = id;
  region = id;
  address = id;
  ping = negsuc 0;
  player_count = 0;
}

abbrev data_of_id : List ℕ → GameServerData
data_of_id id = record { server = server_of_id id; pending_pings = [] }

abbrev known_servers : List ℕ → GameServers
known_servers response = record {
  servers = (here, data_of_id here) ∷ [];
  active = [];
  active_ping_id = 0;
  cached_server_response = response;
  saved_standalone = [];
  saved_last_connected = [];
  saved_response = [];
}

finish_ping-start_ping_example :
    (m' : GameServers) × (d' : GameServerData) × (start_ping 77 1000000 here (known_servers [])
      ≡ some m')
    × (lookup here (finish_ping 77 12 9000000 m').servers ≡ some d')
    × (d'.server ≡ record (server_of_id here) {
      ping = pos ((9000000 - 1000000) / 10 ^ 6);
      player_count = 12;
    })
    × (lookup 77 d'.pending_pings ≡ none)
    × (lookup (105 ∷ []) (finish_ping 77 12 9000000 m').servers
        ≡ lookup (105 ∷ []) (known_servers []).servers)
unfolding lookup
finish_ping-start_ping_example =
    finish_ping-start_ping 77 12 1000000 9000000 here (105 ∷ []) (known_servers [])
      (data_of_id here) refl refl (refl, tt) (omega arith) (omega arith)

Step-IsWell_example : IsWell (add_or_update_server here here here here (known_servers []))
Step-IsWell_example =
    Step-IsWell (updates here here here here) (record { own_id = refl; few = omega arith }, tt)

abbrev entry : GameServerEntry
entry = record { id = here; name = here; address = here; region = here }

-- Base64 that leaves the bytes as they are.
abbrev decode_same : List ℕ → Result (List ℕ) (List ℕ)
decode_same bs = ok bs

abbrev elsewhere : List ℕ
elsewhere = 105 ∷ []

abbrev entry_elsewhere : GameServerEntry
entry_elsewhere = record { id = elsewhere; name = here; address = elsewhere; region = here }

abbrev cached : GameServers
cached = known_servers (server_magic ++ listing (entry_elsewhere ∷ entry ∷ []))

load_from_cache-listing_example :
    (m' : GameServers) × (load_from_cache decode_same cached ≡ ok m')
    × IsListed entry (lookup here cached.servers) (lookup here m'.servers)
    × (lookup (1 ∷ []) m'.servers ≡ lookup (1 ∷ []) cached.servers)
unfolding vector game_server_entry struct string bytes_be lookup
load_from_cache-listing_example =
    load_from_cache-listing decode_same (entry_elsewhere ∷ []) entry [] (1 ∷ []) cached refl
      (omega arith) (omega arith) tt (refl, (refl, tt))

abbrev ten : List ℕ
ten = 1 ∷ 2 ∷ 3 ∷ 4 ∷ 5 ∷ 6 ∷ 7 ∷ 8 ∷ 9 ∷ 10 ∷ []

abbrev no_color : List ℕ → Option Color3
no_color cs = none

abbrev role : ℕ → ℤ → GameServerRole
role n p = record {
  int_id = n;
  role = record {
    id = n ∷ [];
    priority = p;
    badge_icon = [];
    name_color = [];
    chat_color = [];
    notices = false;
    notices_to_everyone = false;
    kick = false;
    kick_everyone = false;
    mute = false;
    ban = false;
    edit_role = false;
    admin = false;
  };
}

abbrev roles : List GameServerRole
roles = role 1 (pos 10) ∷ role 2 (negsuc 4) ∷ role 3 (pos 20) ∷ []

compute-priority_example :
    All
      (λ (id : ℕ).
        IsAtMost no_color (compute no_color roles (2 ∷ 1 ∷ 9 ∷ [])).priority (find_role id roles))
      (2 ∷ 1 ∷ 9 ∷ [])
    × IsAttained no_color roles
        (2 ∷ 1 ∷ 9 ∷ [])
        int_min
        (compute no_color roles (2 ∷ 1 ∷ 9 ∷ [])).priority
compute-priority_example = compute-priority no_color roles (2 ∷ 1 ∷ 9 ∷ [])

abbrev plain_codecs : Codecs toy_box
plain_codecs = record {
  print_int = λ z. [];
  hash_hex = λ cs. cs;
  key_of = λ cs. some 3;
  base64_encode = λ bs. bs;
  base64_decode = λ bs. some bs;
  decode-encode = λ bs. refl;
}

abbrev account : Account toy_box plain_codecs
account = record {
  initialized = true;
  gd_data = record {
    account_name = [];
    account_id = pos 7;
    user_id = pos 8;
    central = [];
    precomputed_hash = 97 ∷ 98 ∷ [];
  };
  crypto_box = some 3;
  auth_token = [];
  saved = [];
}

get_admin_password-store_example :
    (a' : Account toy_box plain_codecs) × (store_admin_password toy_box plain_codecs some_nonce
        (5 ∷ 6 ∷ [])
        account
      ≡ some a')
    × (get_admin_password toy_box plain_codecs a' ≡ some (some (5 ∷ 6 ∷ [])))
    × (get_auth_key toy_box plain_codecs a' ≡ get_auth_key toy_box plain_codecs account)
get_admin_password-store_example =
    get_admin_password-store toy_box plain_codecs some_nonce (5 ∷ 6 ∷ []) 3 account refl refl refl

abbrev peer : Address
peer = record { family = 2; port = 4202; addr = 16777343 }

abbrev socket : UdpSocket
socket = record { connected = true; dest_addr = peer }

abbrev ping : Packet
ping = record { class = ping_packet_class; members = record { id = 70000 } }

-- A system that hands out one datagram again and again.
abbrev from_peer : List ℕ → RecvFrom × List ℕ
from_peer w = (datagram w peer, w)

recv_packet-send_packet_example :
    (send_packet toy_box (ping_packet_class ∷ []) none true [] ping ≡ ok (on_udp (plain ping)))
    × (recv_packet toy_box
          (ping_packet_class ∷ [])
          none
          next_byte
          from_peer
          (ok udp_ready)
          socket
          true
          (plain ping)
        ≡ record {
          result = ok (record { packet = ping; from_connected = from_server socket peer });
          tcp_connected = true;
          world = plain ping;
        })
unfolding match_packet packet_header struct bytes_be ping_packet globed.Data.Serial.Numbers.u32
    globed.Data.Serial.Numbers.u16 globed.Data.Serial.Numbers.boolean
recv_packet-send_packet_example =
    recv_packet-send_packet toy_box (ping_packet_class ∷ []) none next_byte from_peer [] ping socket
      peer true (plain ping) (plain ping) refl refl (omega arith) refl (omega arith) (omega arith)
      refl

abbrev client : Client
client = record {
  manager = initial;
  servers = known_servers [];
  has_token = true;
  notices = [];
  handshakes = [];
  queue = [];
}

recv_round-foreign_example :
    ForeignEffect 9
      (server_disconnect (record { message = here }))
      client
      (recv_round 9 (received (server_disconnect (record { message = here })) false) client)
recv_round-foreign_example =
    recv_round-foreign 9 (server_disconnect (record { message = here })) client

recv_round-rejection_example :
    IsOut
      (server_disconnect (record { message = here }))
      client
      (recv_round 9 (received (server_disconnect (record { message = here })) true) client)
recv_round-rejection_example =
    recv_round-rejection 9 (server_disconnect (record { message = here })) client
      (kicked (record { message = here })) refl
