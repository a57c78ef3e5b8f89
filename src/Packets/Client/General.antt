-- ===== src/Packets/Client/General.antt =====
-- src/data/packets/client/general.hpp.
use globed.Common.{refl, Bool, false, List}
use globed.Common.Int.{ℤ}
use globed.Data.Serial.{Serial}
use globed.Data.Serial.Numbers.{i64, boolean}
use globed.Data.Serial.Containers.{vector}
use globed.Data.Serial.Members.{none_left, ◌&◌, ◌⊗◌, struct}
use globed.Data.Types.Gd.{PlayerIconData, player_icon_data}
use globed.Packets.Base.{PacketClass}

-- 11000.
pub record SyncIconsPacket : Type 0 where
  pub icons : PlayerIconData

unfoldable pub sync_icons_packet : Serial SyncIconsPacket
sync_icons_packet =
    struct (player_icon_data & none_left) (λ t. t.icons ⊗ tt) (λ r. record { icons = r.0 })
      (λ t. refl)

abbrev pub sync_icons_packet_class : PacketClass
sync_icons_packet_class = record {
  Body = SyncIconsPacket;
  id = 11000;
  encrypted = false;
  use_tcp = false;
  body = sync_icons_packet;
}

-- 11001.
pub record RequestGlobalPlayerListPacket : Type 0 where

unfoldable pub request_global_player_list_packet : Serial RequestGlobalPlayerListPacket
request_global_player_list_packet = struct none_left (λ t. tt) (λ r. record {}) (λ t. refl)

abbrev pub request_global_player_list_packet_class : PacketClass
request_global_player_list_packet_class = record {
  Body = RequestGlobalPlayerListPacket;
  id = 11001;
  encrypted = false;
  use_tcp = false;
  body = request_global_player_list_packet;
}

-- 11002.
pub record RequestLevelListPacket : Type 0 where

unfoldable pub request_level_list_packet : Serial RequestLevelListPacket
request_level_list_packet = struct none_left (λ t. tt) (λ r. record {}) (λ t. refl)

abbrev pub request_level_list_packet_class : PacketClass
request_level_list_packet_class = record {
  Body = RequestLevelListPacket;
  id = 11002;
  encrypted = false;
  use_tcp = false;
  body = request_level_list_packet;
}

-- 11003.
pub record RequestPlayerCountPacket : Type 0 where
  pub level_ids : List ℤ

unfoldable pub request_player_count_packet : Serial RequestPlayerCountPacket
request_player_count_packet =
    struct ((vector i64) & none_left) (λ t. t.level_ids ⊗ tt) (λ r. record { level_ids = r.0 })
      (λ t. refl)

abbrev pub request_player_count_packet_class : PacketClass
request_player_count_packet_class = record {
  Body = RequestPlayerCountPacket;
  id = 11003;
  encrypted = false;
  use_tcp = false;
  body = request_player_count_packet;
}

-- 11004.
pub record UpdatePlayerStatusPacket : Type 0 where
  pub is_invisible : Bool

unfoldable pub update_player_status_packet : Serial UpdatePlayerStatusPacket
update_player_status_packet =
    struct (boolean & none_left) (λ t. t.is_invisible ⊗ tt) (λ r. record { is_invisible = r.0 })
      (λ t. refl)

abbrev pub update_player_status_packet_class : PacketClass
update_player_status_packet_class = record {
  Body = UpdatePlayerStatusPacket;
  id = 11004;
  encrypted = false;
  use_tcp = false;
  body = update_player_status_packet;
}
