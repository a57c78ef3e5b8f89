-- ===== src/Packets/Server/Room.antt =====
-- src/data/packets/server/room.hpp.
use globed.Common.{ℕ, refl, Bool, false, List}
use globed.Data.Serial.{Serial}
use globed.Data.Serial.Numbers.{u32, boolean}
use globed.Data.Serial.Text.{string}
use globed.Data.Serial.Containers.{vector}
use globed.Data.Serial.Members.{none_left, ◌&◌, ◌⊗◌, struct}
use globed.Data.Types.Gd.{
  PlayerPreviewAccountData, player_preview_account_data, PlayerRoomPreviewAccountData,
  player_room_preview_account_data,
}
use globed.Data.Types.Room.{RoomInfo, room_info, RoomListingInfo, room_listing_info}
use globed.Packets.Base.{PacketClass}

-- 23000.
pub record RoomCreatedPacket : Type 0 where
  pub info : RoomInfo

unfoldable pub room_created_packet : Serial RoomCreatedPacket
room_created_packet =
    struct (room_info & none_left) (λ t. t.info ⊗ tt) (λ r. record { info = r.0 }) (λ t. refl)

abbrev pub room_created_packet_class : PacketClass
room_created_packet_class = record {
  Body = RoomCreatedPacket;
  id = 23000;
  encrypted = false;
  use_tcp = false;
  body = room_created_packet;
}

-- 23001.
pub record RoomJoinedPacket : Type 0 where

unfoldable pub room_joined_packet : Serial RoomJoinedPacket
room_joined_packet = struct none_left (λ t. tt) (λ r. record {}) (λ t. refl)

abbrev pub room_joined_packet_class : PacketClass
room_joined_packet_class = record {
  Body = RoomJoinedPacket;
  id = 23001;
  encrypted = false;
  use_tcp = false;
  body = room_joined_packet;
}

-- 23002.
pub record RoomJoinFailedPacket : Type 0 where
  pub was_invalid : Bool
  pub was_protected : Bool
  pub was_full : Bool

unfoldable pub room_join_failed_packet : Serial RoomJoinFailedPacket
room_join_failed_packet =
    struct (boolean & boolean & boolean & none_left)
      (λ t. t.was_invalid ⊗ t.was_protected ⊗ t.was_full ⊗ tt)
      (λ r. record { was_invalid = r.0; was_protected = r.1.0; was_full = r.1.1.0 }) (λ t. refl)

abbrev pub room_join_failed_packet_class : PacketClass
room_join_failed_packet_class = record {
  Body = RoomJoinFailedPacket;
  id = 23002;
  encrypted = false;
  use_tcp = false;
  body = room_join_failed_packet;
}

-- 23003.
pub record RoomPlayerListPacket : Type 0 where
  pub info : RoomInfo
  pub players : List PlayerRoomPreviewAccountData

unfoldable pub room_player_list_packet : Serial RoomPlayerListPacket
room_player_list_packet =
    struct (room_info & (vector player_room_preview_account_data) & none_left)
      (λ t. t.info ⊗ t.players ⊗ tt) (λ r. record { info = r.0; players = r.1.0 }) (λ t. refl)

abbrev pub room_player_list_packet_class : PacketClass
room_player_list_packet_class = record {
  Body = RoomPlayerListPacket;
  id = 23003;
  encrypted = false;
  use_tcp = false;
  body = room_player_list_packet;
}

-- 23004.
pub record RoomInfoPacket : Type 0 where
  pub info : RoomInfo

unfoldable pub room_info_packet : Serial RoomInfoPacket
room_info_packet =
    struct (room_info & none_left) (λ t. t.info ⊗ tt) (λ r. record { info = r.0 }) (λ t. refl)

abbrev pub room_info_packet_class : PacketClass
room_info_packet_class = record {
  Body = RoomInfoPacket;
  id = 23004;
  encrypted = false;
  use_tcp = false;
  body = room_info_packet;
}

-- 23005.
pub record RoomInvitePacket : Type 0 where
  pub player_data_of : PlayerPreviewAccountData
  pub room_id : ℕ
  pub password : List ℕ

unfoldable pub room_invite_packet : Serial RoomInvitePacket
room_invite_packet =
    struct (player_preview_account_data & u32 & string & none_left)
      (λ t. t.player_data_of ⊗ t.room_id ⊗ t.password ⊗ tt)
      (λ r. record { player_data_of = r.0; room_id = r.1.0; password = r.1.1.0 }) (λ t. refl)

abbrev pub room_invite_packet_class : PacketClass
room_invite_packet_class = record {
  Body = RoomInvitePacket;
  id = 23005;
  encrypted = false;
  use_tcp = false;
  body = room_invite_packet;
}

-- 23006.
pub record RoomListPacket : Type 0 where
  pub rooms : List RoomListingInfo

unfoldable pub room_list_packet : Serial RoomListPacket
room_list_packet =
    struct ((vector room_listing_info) & none_left) (λ t. t.rooms ⊗ tt)
      (λ r. record { rooms = r.0 }) (λ t. refl)

abbrev pub room_list_packet_class : PacketClass
room_list_packet_class = record {
  Body = RoomListPacket;
  id = 23006;
  encrypted = false;
  use_tcp = false;
  body = room_list_packet;
}

-- 23007.
pub record RoomCreateFailedPacket : Type 0 where
  pub reason : List ℕ

unfoldable pub room_create_failed_packet : Serial RoomCreateFailedPacket
room_create_failed_packet =
    struct (string & none_left) (λ t. t.reason ⊗ tt) (λ r. record { reason = r.0 }) (λ t. refl)

abbrev pub room_create_failed_packet_class : PacketClass
room_create_failed_packet_class = record {
  Body = RoomCreateFailedPacket;
  id = 23007;
  encrypted = false;
  use_tcp = false;
  body = room_create_failed_packet;
}
