-- ===== src/Examples/Sockets.antt =====
-- Runs of the sockets, of the encryption and of the block list.
use globed.Common.{
  ℕ, ◌<◌, ◌≡◌, refl, true, false, List, [], ◌∷◌, ◌++◌, some, ok, err, arith, length, length-append,
  replicate, drop,
}
use globed.Common.Int.{pos, negsuc}
use globed.Data.Words.{bytes_be}
use globed.Data.Buffer.{of_bytes}
use globed.Data.Buffer.Cursor.{full}
use globed.Data.Serial.Numbers.{i32}
use globed.Data.Serial.Containers.{wire_items}
use globed.Crypto.Box.{crypted, decrypt_in_place}
use globed.Crypto.InPlace.{decrypt_in_place_lem}
use globed.Packets.Base.{PacketHeader, packet_header}
use globed.Data.Serial.Members.{struct}
use globed.Data.Serial.Text.{string}
use globed.Packets.Server.{admin_error_packet_class, admin_error_packet, server_packets}
use globed.Packets.Client.{ping_packet_class}
use globed.Net.TcpSocket.{returned, recv_exact, send_all}
use globed.Net.TcpSocket.Send.{send_all_lem}
use globed.Net.TcpSocket.Receive.{recv_exact_lem}
use globed.Net.GameSocket.{
  Packet, cleartext_packet, exception, encode_packet, decode_packet, recv_packet_tcp, match_packet,
  header_of,
}
use globed.Net.GameSocket.Encode.{plain, length-header_wire}
use globed.Net.GameSocket.Decode.{decode_packet-downgraded, decode_packet-short}
use globed.Net.GameSocket.Framing.{sent_bytes, behind_length, recv_packet_tcp-encode_packet}
use globed.Managers.BlockList.{
  BlockList, load, save, blacklist, is_explicitly_blocked, is_explicitly_allowed,
}
use globed.Managers.BlockList.Storage.{load-save}
use globed.Managers.BlockList.Sets.{blacklist_lem}
use globed.Examples.Toys.{toy_box, slow_connection, next_byte, some_nonce, slow_sink, take_byte}

decrypt_in_place_lem_example :
    decrypt_in_place toy_box 3 ((1 ∷ []) ++ (some_nonce ++ (replicate 16 3 ++ (8 ∷ 9 ∷ [])))) 1 42
    ≡ crypted
        ((1 ∷ [])
          ++ ((8 ∷ 9 ∷ [])
              ++ drop 2 (some_nonce ++ ((8 ∷ 9 ∷ []) ++ drop 2 (replicate 16 3 ++ (8 ∷ 9 ∷ []))))))
        2
decrypt_in_place_lem_example = decrypt_in_place_lem toy_box 3 some_nonce (1 ∷ []) (8 ∷ 9 ∷ []) refl

recv_exact_lem_example :
    (w' : List ℕ) × (recv_exact next_byte 3 true (1 ∷ 2 ∷ 3 ∷ 4 ∷ [])
      ≡ returned (1 ∷ 2 ∷ 3 ∷ []) true w')
    × (w' ≡ 4 ∷ [])
recv_exact_lem_example =
    recv_exact_lem slow_connection (1 ∷ 2 ∷ 3 ∷ []) (4 ∷ []) (1 ∷ 2 ∷ 3 ∷ 4 ∷ []) refl (omega arith)

-- A notice of the server that is sealed.
abbrev refusal : Packet
refusal = record { class = admin_error_packet_class; members = record { message = 110 ∷ 111 ∷ [] } }

refusal-IsFit : admin_error_packet.IsFit refusal.members
unfolding admin_error_packet struct string
refusal-IsFit = omega arith

refusal-short : length (plain refusal) < 250
unfolding admin_error_packet struct string bytes_be
refusal-short = omega (
  arith,
  length-append (packet_header.wire (header_of refusal.class))
      (refusal.class.body.wire refusal.members),
  length-header_wire (header_of refusal.class),
)

refusal-known : match_packet server_packets 29001 ≡ some admin_error_packet_class
unfolding match_packet
refusal-known = refl

abbrev refusal_sent : List ℕ
refusal_sent =
    behind_length (sent_bytes (encode_packet toy_box (some 3) some_nonce refusal (full [])))

recv_packet_tcp-encode_packet_example :
    (w' : List ℕ) × (recv_packet_tcp toy_box server_packets
        (some 3)
        next_byte
        true
        (refusal_sent ++ (1 ∷ []))
      ≡ returned (ok refusal) true w')
    × (w' ≡ 1 ∷ [])
recv_packet_tcp-encode_packet_example =
    recv_packet_tcp-encode_packet slow_connection toy_box server_packets 3 some_nonce refusal
      (1 ∷ []) (refusal_sent ++ (1 ∷ [])) refl refl refl (omega arith) refusal-known refusal-IsFit
      (omega (arith, refusal-short)) refl

abbrev ping : Packet
ping = record { class = ping_packet_class; members = record { id = 70000 } }

decode_packet-downgraded_example :
    decode_packet toy_box server_packets
      (some 3)
      (of_bytes (packet_header.wire (record { id = 29001; encrypted = false }) ++ (1 ∷ 2 ∷ [])))
    ≡ err cleartext_packet
unfolding match_packet
decode_packet-downgraded_example =
    decode_packet-downgraded toy_box server_packets (some 3) admin_error_packet_class (1 ∷ 2 ∷ [])
      refl (omega arith) refl

abbrev short_header : PacketHeader
short_header = record { id = 29001; encrypted = true }

decode_packet-short_example :
    decode_packet toy_box server_packets
      (some 3)
      (of_bytes (packet_header.wire short_header ++ (1 ∷ 2 ∷ [])))
    ≡ err exception
unfolding match_packet
decode_packet-short_example =
    decode_packet-short toy_box server_packets 3 admin_error_packet_class short_header (1 ∷ 2 ∷ [])
      (omega arith) refl refl (omega arith)

abbrev lists : BlockList
lists = record { blocked = negsuc 2 ∷ pos 5 ∷ []; allowed = pos 9 ∷ []; hidden = []; saved = [] }

load-save_example :
    (is_explicitly_blocked (pos 5) (load (save lists)).0 ≡ false)
    × (is_explicitly_allowed (pos 5) (load (save lists)).0 ≡ is_explicitly_blocked (pos 5) lists)
unfolding wire_items i32 bytes_be
load-save_example = load-save lists (pos 5) (omega arith)

blacklist_lem_example :
    (is_explicitly_blocked (pos 9) (blacklist (pos 9) lists) ≡ true)
    × (is_explicitly_allowed (pos 9) (blacklist (pos 9) lists) ≡ false)
unfolding is_explicitly_blocked
blacklist_lem_example = blacklist_lem lists (pos 9) (pos 9)

send_all_lem_example :
    (w' : List ℕ) × (send_all take_byte 5 (7 ∷ 8 ∷ 9 ∷ []) true (1 ∷ []) ≡ returned tt true w')
    × (w' ≡ 1 ∷ 7 ∷ 8 ∷ 9 ∷ [])
send_all_lem_example =
    send_all_lem slow_sink 5 (7 ∷ 8 ∷ 9 ∷ []) true (1 ∷ []) (omega arith) (omega arith)
