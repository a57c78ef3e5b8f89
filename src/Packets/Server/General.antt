-- ===== src/Packets/Server/General.antt =====
-- src/data/packets/server/general.hpp.
use globed.Common.{ℕ, refl, false, List}
use globed.Common.Int.{ℤ}
use globed.Data.Serial.{Serial}
use globed.Data.Serial.Numbers.{u16, i64}
use globed.Data.Serial.Containers.{vector, pair}
use globed.Data.Serial.Members.{none_left, ◌&◌, ◌⊗◌, struct}
use globed.Data.Types.Misc.{GlobedLevel, globed_level}
use globed.Data.Types.Gd.{
  SpecialUserData, special_user_data, PlayerPreviewAccountData, player_preview_account_data,
}
use globed.Packets.Base.{PacketClass}

-- 21000.
pub record GlobalPlayerListPacket : Type 0 where
  pub data_of : List PlayerPreviewAccountData

unfoldable pub global_player_list_packet : Serial GlobalPlayerListPacket
global_player_list_packet =
    struct ((vector player_preview_account_data) & none_left) (λ t. t.data_of ⊗ tt)
      (λ r. record { data_of = r.0 }) (λ t. refl)

abbrev pub global_player_list_packet_class : PacketClass
global_player_list_packet_class = record {
  Body = GlobalPlayerListPacket;
  id = 21000;
  encrypted = false;
  use_tcp = false;
  body = global_player_list_packet;
}

-- 21001.
pub record LevelListPacket : Type 0 where
  pub levels : List GlobedLevel

unfoldable pub level_list_packet : Serial LevelListPacket
level_list_packet =
    struct ((vector globed_level) & none_left) (λ t. t.levels ⊗ tt) (λ r. record { levels = r.0 })
      (λ t. refl)

abbrev pub level_list_packet_class : PacketClass
level_list_packet_class = record {
  Body = LevelListPacket;
  id = 21001;
  encrypted = false;
  use_tcp = false;
  body = level_list_packet;
}

-- 21002.
pub record LevelPlayerCountPacket : Type 0 where
  pub levels : List (ℤ × ℕ)

unfoldable pub level_player_count_packet : Serial LevelPlayerCountPacket
level_player_count_packet =
    struct ((vector (pair i64 u16)) & none_left) (λ t. t.levels ⊗ tt) (λ r. record { levels = r.0 })
      (λ t. refl)

abbrev pub level_player_count_packet_class : PacketClass
level_player_count_packet_class = record {
  Body = LevelPlayerCountPacket;
  id = 21002;
  encrypted = false;
  use_tcp = false;
  body = level_player_count_packet;
}

-- 21003.
pub record RolesUpdatedPacket : Type 0 where
  pub special_user_data_of : SpecialUserData

unfoldable pub roles_updated_packet : Serial RolesUpdatedPacket
roles_updated_packet =
    struct (special_user_data & none_left) (λ t. t.special_user_data_of ⊗ tt)
      (λ r. record { special_user_data_of = r.0 }) (λ t. refl)

abbrev pub roles_updated_packet_class : PacketClass
roles_updated_packet_class = record {
  Body = RolesUpdatedPacket;
  id = 21003;
  encrypted = false;
  use_tcp = false;
  body = roles_updated_packet;
}
