-- ===== src/Packets/RoundTrip.antt =====
-- src/data/packets, src/data/types: what is written is read back, and a read stays in its buffer.
use globed.Common.{◌^◌, ◌<◌, ◌≡◌, ap, ◌∙◌, arith, [], length}
use globed.Data.Buffer.{ByteBuffer, done, of_bytes}
use globed.Data.Buffer.Cursor.{IsValid, full, at}
use globed.Data.Buffer.Safety.{after, Forward}
use globed.Data.Serial.{Serial, read-wire}
use globed.Data.Types.Game.{PlayerData, player_data}
use globed.Data.Types.Room.{RoomInfo, room_info}
use globed.Packets.Client.{LoginPacket, login_packet}
use globed.Packets.Server.{logged_in_packet}

-- Into an empty buffer, and from its start.
read-write :
    {A : Type 0} (s : Serial A) (a : A)
    → s.IsFit a
    → length (s.wire a) < 2 ^ 63
    → s.read (of_bytes (s.write a (of_bytes [])).bytes) ≡ done a (full (s.wire a))
unfolding of_bytes
read-write s a f h =
    ap (λ (b : ByteBuffer). s.read (at [] b.bytes)) (s.write-full a [] (omega (arith, h)))
    ∙ read-wire s a f h

-- A player's state in a level whose numbers fit the wire, written into an empty buffer, is read
-- back whole, its icons' and its own flags included.
pub player_data_round :
    (t : PlayerData)
    → player_data.IsFit t
    → length (player_data.wire t) < 2 ^ 63
    → player_data.read (of_bytes (player_data.write t (of_bytes [])).bytes)
      ≡ done t (full (player_data.wire t))
player_data_round = read-write player_data

-- A login packet whose strings and numbers fit the wire, written into an empty buffer, is read
-- back whole.
login_packet_round :
    (t : LoginPacket)
    → login_packet.IsFit t
    → length (login_packet.wire t) < 2 ^ 63
    → login_packet.read (of_bytes (login_packet.write t (of_bytes [])).bytes)
      ≡ done t (full (login_packet.wire t))
login_packet_round = read-write login_packet

-- A room's description whose strings and numbers fit the wire, its bit field of flags included,
-- written into an empty buffer is read back whole.
room_info_round :
    (t : RoomInfo)
    → room_info.IsFit t
    → length (room_info.wire t) < 2 ^ 63
    → room_info.read (of_bytes (room_info.write t (of_bytes [])).bytes)
      ≡ done t (full (room_info.wire t))
room_info_round = read-write room_info

-- Whatever bytes a server sends as a player's state, the decoder leaves the buffer's bytes alone,
-- and ends at a position behind the one it began at and in the buffer.
pub player_data_safe : (b : ByteBuffer) → IsValid b → Forward b (after (player_data.read b))
player_data_safe = player_data.read-safe

-- Whatever bytes a server sends as the answer to a login, with roles and their optional members, the
-- decoder leaves the buffer's bytes alone, and ends at a position behind the one it began at and in
-- the buffer.
logged_in_packet_safe : (b : ByteBuffer) → IsValid b → Forward b (after (logged_in_packet.read b))
logged_in_packet_safe = logged_in_packet.read-safe
