-- ===== src/Packets/Client/Game.antt =====
-- src/data/packets/client/game.hpp.
use globed.Common.{ℕ, refl, true, false, List}
use globed.Common.Int.{ℤ}
use globed.Data.Serial.{Serial}
use globed.Data.Serial.Numbers.{i32, i64}
use globed.Data.Serial.Text.{string}
use globed.Data.Serial.Members.{none_left, ◌&◌, ◌⊗◌, struct}
use globed.Data.Types.Game.{PlayerData, player_data, PlayerMetadata, player_metadata}
use globed.Audio.Frame.{EncodedAudioFrame, encoded_audio_frame}
use globed.Packets.Base.{PacketClass}

-- 12000.
pub record RequestPlayerProfilesPacket : Type 0 where
  pub requested : ℤ

unfoldable pub request_player_profiles_packet : Serial RequestPlayerProfilesPacket
request_player_profiles_packet =
    struct (i32 & none_left) (λ t. t.requested ⊗ tt) (λ r. record { requested = r.0 }) (λ t. refl)

abbrev pub request_player_profiles_packet_class : PacketClass
request_player_profiles_packet_class = record {
  Body = RequestPlayerProfilesPacket;
  id = 12000;
  encrypted = false;
  use_tcp = false;
  body = request_player_profiles_packet;
}

-- 12001.
pub record LevelJoinPacket : Type 0 where
  pub level_id : ℤ

unfoldable pub level_join_packet : Serial LevelJoinPacket
level_join_packet =
    struct (i64 & none_left) (λ t. t.level_id ⊗ tt) (λ r. record { level_id = r.0 }) (λ t. refl)

abbrev pub level_join_packet_class : PacketClass
level_join_packet_class = record {
  Body = LevelJoinPacket;
  id = 12001;
  encrypted = false;
  use_tcp = false;
  body = level_join_packet;
}

-- 12002.
pub record LevelLeavePacket : Type 0 where

unfoldable pub level_leave_packet : Serial LevelLeavePacket
level_leave_packet = struct none_left (λ t. tt) (λ r. record {}) (λ t. refl)

abbrev pub level_leave_packet_class : PacketClass
level_leave_packet_class = record {
  Body = LevelLeavePacket;
  id = 12002;
  encrypted = false;
  use_tcp = false;
  body = level_leave_packet;
}

-- 12003.
pub record PlayerDataPacket : Type 0 where
  pub data_of : PlayerData

unfoldable pub player_data_packet : Serial PlayerDataPacket
player_data_packet =
    struct (player_data & none_left) (λ t. t.data_of ⊗ tt) (λ r. record { data_of = r.0 })
      (λ t. refl)

abbrev pub player_data_packet_class : PacketClass
player_data_packet_class = record {
  Body = PlayerDataPacket;
  id = 12003;
  encrypted = false;
  use_tcp = false;
  body = player_data_packet;
}

-- 12004.
pub record PlayerMetadataPacket : Type 0 where
  pub data_of : PlayerMetadata

unfoldable pub player_metadata_packet : Serial PlayerMetadataPacket
player_metadata_packet =
    struct (player_metadata & none_left) (λ t. t.data_of ⊗ tt) (λ r. record { data_of = r.0 })
      (λ t. refl)

abbrev pub player_metadata_packet_class : PacketClass
player_metadata_packet_class = record {
  Body = PlayerMetadataPacket;
  id = 12004;
  encrypted = false;
  use_tcp = false;
  body = player_metadata_packet;
}

-- 12010. The frame cannot be copied into a `VoicePacket`: `RawPacket::create<VoicePacket>` sends the
-- bytes of the frame under the constants of this class.
abbrev pub voice_packet_class : PacketClass
voice_packet_class = record {
  Body = EncodedAudioFrame;
  id = 12010;
  encrypted = true;
  use_tcp = false;
  body = encoded_audio_frame;
}

-- 12011.
pub record ChatMessagePacket : Type 0 where
  pub message : List ℕ

unfoldable pub chat_message_packet : Serial ChatMessagePacket
chat_message_packet =
    struct (string & none_left) (λ t. t.message ⊗ tt) (λ r. record { message = r.0 }) (λ t. refl)

abbrev pub chat_message_packet_class : PacketClass
chat_message_packet_class = record {
  Body = ChatMessagePacket;
  id = 12011;
  encrypted = true;
  use_tcp = false;
  body = chat_message_packet;
}
