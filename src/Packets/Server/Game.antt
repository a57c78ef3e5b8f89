-- ===== src/Packets/Server/Game.antt =====
-- src/data/packets/server/game.hpp.
use globed.Common.{ℕ, refl, true, false, List}
use globed.Common.Int.{ℤ}
use globed.Data.Serial.{Serial}
use globed.Data.Serial.Numbers.{i32}
use globed.Data.Serial.Text.{string}
use globed.Data.Serial.Containers.{vector}
use globed.Data.Serial.Members.{none_left, ◌&◌, ◌⊗◌, struct}
use globed.Data.Types.Gd.{PlayerAccountData, player_account_data}
use globed.Data.Types.Game.{
  AssociatedPlayerData, associated_player_data, AssociatedPlayerMetadata,
  associated_player_metadata,
}
use globed.Audio.Frame.{EncodedAudioFrame, encoded_audio_frame}
use globed.Packets.Base.{PacketClass}

-- 22000.
pub record PlayerProfilesPacket : Type 0 where
  pub players : List PlayerAccountData

unfoldable pub player_profiles_packet : Serial PlayerProfilesPacket
player_profiles_packet =
    struct ((vector player_account_data) & none_left) (λ t. t.players ⊗ tt)
      (λ r. record { players = r.0 }) (λ t. refl)

abbrev pub player_profiles_packet_class : PacketClass
player_profiles_packet_class = record {
  Body = PlayerProfilesPacket;
  id = 22000;
  encrypted = false;
  use_tcp = false;
  body = player_profiles_packet;
}

-- 22001.
pub record LevelDataPacket : Type 0 where
  pub players : List AssociatedPlayerData

unfoldable pub level_data_packet : Serial LevelDataPacket
level_data_packet =
    struct ((vector associated_player_data) & none_left) (λ t. t.players ⊗ tt)
      (λ r. record { players = r.0 }) (λ t. refl)

abbrev pub level_data_packet_class : PacketClass
level_data_packet_class = record {
  Body = LevelDataPacket;
  id = 22001;
  encrypted = false;
  use_tcp = false;
  body = level_data_packet;
}

-- 22002.
pub record LevelPlayerMetadataPacket : Type 0 where
  pub players : List AssociatedPlayerMetadata

unfoldable pub level_player_metadata_packet : Serial LevelPlayerMetadataPacket
level_player_metadata_packet =
    struct ((vector associated_player_metadata) & none_left) (λ t. t.players ⊗ tt)
      (λ r. record { players = r.0 }) (λ t. refl)

abbrev pub level_player_metadata_packet_class : PacketClass
level_player_metadata_packet_class = record {
  Body = LevelPlayerMetadataPacket;
  id = 22002;
  encrypted = false;
  use_tcp = false;
  body = level_player_metadata_packet;
}

-- 22010.
pub record VoiceBroadcastPacket : Type 0 where
  pub sender : ℤ
  pub frame : EncodedAudioFrame

unfoldable pub voice_broadcast_packet : Serial VoiceBroadcastPacket
voice_broadcast_packet =
    struct (i32 & encoded_audio_frame & none_left) (λ t. t.sender ⊗ t.frame ⊗ tt)
      (λ r. record { sender = r.0; frame = r.1.0 }) (λ t. refl)

abbrev pub voice_broadcast_packet_class : PacketClass
voice_broadcast_packet_class = record {
  Body = VoiceBroadcastPacket;
  id = 22010;
  encrypted = true;
  use_tcp = false;
  body = voice_broadcast_packet;
}

-- 22011.
pub record ChatMessageBroadcastPacket : Type 0 where
  pub sender : ℤ
  pub message : List ℕ

unfoldable pub chat_message_broadcast_packet : Serial ChatMessageBroadcastPacket
chat_message_broadcast_packet =
    struct (i32 & string & none_left) (λ t. t.sender ⊗ t.message ⊗ tt)
      (λ r. record { sender = r.0; message = r.1.0 }) (λ t. refl)

abbrev pub chat_message_broadcast_packet_class : PacketClass
chat_message_broadcast_packet_class = record {
  Body = ChatMessageBroadcastPacket;
  id = 22011;
  encrypted = true;
  use_tcp = false;
  body = chat_message_broadcast_packet;
}
