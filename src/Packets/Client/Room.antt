-- ===== src/Packets/Client/Room.antt =====
-- src/data/packets/client/room.hpp.
use globed.Common.{ℕ, refl, false, List}
use globed.Common.Int.{ℤ}
use globed.Data.Serial.{Serial}
use globed.Data.Serial.Numbers.{u32, i32}
use globed.Data.Serial.Text.{string}
use globed.Data.Serial.Members.{none_left, ◌&◌, ◌⊗◌, struct}
use globed.Data.Types.Room.{RoomSettings, room_settings}
use globed.Packets.Base.{PacketClass}

-- 13000.
pub record CreateRoomPacket : Type 0 where
  pub room_name : List ℕ
  pub password : List ℕ
  pub settings : RoomSettings

unfoldable pub create_room_packet : Serial CreateRoomPacket
create_room_packet =
    struct (string & string & room_settings & none_left)
      (λ t. t.room_name ⊗ t.password ⊗ t.settings ⊗ tt)
      (λ r. record { room_name = r.0; password = r.1.0; settings = r.1.1.0 }) (λ t. refl)

abbrev pub create_room_packet_class : PacketClass
create_room_packet_class = record {
  Body = CreateRoomPacket;
  id = 13000;
  encrypted = false;
  use_tcp = false;
  body = create_room_packet;
}

-- 13001.
pub record JoinRoomPacket : Type 0 where
  pub room_id : ℕ
  pub password : List ℕ

unfoldable pub join_room_packet : Serial JoinRoomPacket
join_room_packet =
    struct (u32 & string & none_left) (λ t. t.room_id ⊗ t.password ⊗ tt)
      (λ r. record { room_id = r.0; password = r.1.0 }) (λ t. refl)

abbrev pub join_room_packet_class : PacketClass
join_room_packet_class = record {
  Body = JoinRoomPacket;
  id = 13001;
  encrypted = false;
  use_tcp = false;
  body = join_room_packet;
}

-- 13002.
pub record LeaveRoomPacket : Type 0 where

unfoldable pub leave_room_packet : Serial LeaveRoomPacket
leave_room_packet = struct none_left (λ t. tt) (λ r. record {}) (λ t. refl)

abbrev pub leave_room_packet_class : PacketClass
leave_room_packet_class = record {
  Body = LeaveRoomPacket;
  id = 13002;
  encrypted = false;
  use_tcp = false;
  body = leave_room_packet;
}

-- 13003.
pub record RequestRoomPlayerListPacket : Type 0 where

unfoldable pub request_room_player_list_packet : Serial RequestRoomPlayerListPacket
request_room_player_list_packet = struct none_left (λ t. tt) (λ r. record {}) (λ t. refl)

abbrev pub request_room_player_list_packet_class : PacketClass
request_room_player_list_packet_class = record {
  Body = RequestRoomPlayerListPacket;
  id = 13003;
  encrypted = false;
  use_tcp = false;
  body = request_room_player_list_packet;
}

-- 13004.
pub record UpdateRoomSettingsPacket : Type 0 where
  pub settings : RoomSettings

unfoldable pub update_room_settings_packet : Serial UpdateRoomSettingsPacket
update_room_settings_packet =
    struct (room_settings & none_left) (λ t. t.settings ⊗ tt) (λ r. record { settings = r.0 })
      (λ t. refl)

abbrev pub update_room_settings_packet_class : PacketClass
update_room_settings_packet_class = record {
  Body = UpdateRoomSettingsPacket;
  id = 13004;
  encrypted = false;
  use_tcp = false;
  body = update_room_settings_packet;
}

-- 13005.
pub record RoomSendInvitePacket : Type 0 where
  pub player : ℤ

unfoldable pub room_send_invite_packet : Serial RoomSendInvitePacket
room_send_invite_packet =
    struct (i32 & none_left) (λ t. t.player ⊗ tt) (λ r. record { player = r.0 }) (λ t. refl)

abbrev pub room_send_invite_packet_class : PacketClass
room_send_invite_packet_class = record {
  Body = RoomSendInvitePacket;
  id = 13005;
  encrypted = false;
  use_tcp = false;
  body = room_send_invite_packet;
}

-- 13006.
pub record RequestRoomListPacket : Type 0 where

unfoldable pub request_room_list_packet : Serial RequestRoomListPacket
request_room_list_packet = struct none_left (λ t. tt) (λ r. record {}) (λ t. refl)

abbrev pub request_room_list_packet_class : PacketClass
request_room_list_packet_class = record {
  Body = RequestRoomListPacket;
  id = 13006;
  encrypted = false;
  use_tcp = false;
  body = request_room_list_packet;
}
