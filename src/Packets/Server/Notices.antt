-- ===== src/Packets/Server/Notices.antt =====
-- src/data/packets/server/connection.hpp: notices, bans and the connection test.
use globed.Common.{ℕ, refl, false, List}
use globed.Common.Int.{ℤ}
use globed.Data.Serial.{Serial}
use globed.Data.Serial.Numbers.{u8, u32, i64}
use globed.Data.Serial.Text.{string}
use globed.Data.Serial.Containers.{vector}
use globed.Data.Serial.Members.{none_left, ◌&◌, ◌⊗◌, struct}
use globed.Packets.Base.{PacketClass}

-- 20100.
pub record ServerNoticePacket : Type 0 where
  pub message : List ℕ

unfoldable pub server_notice_packet : Serial ServerNoticePacket
server_notice_packet =
    struct (string & none_left) (λ t. t.message ⊗ tt) (λ r. record { message = r.0 }) (λ t. refl)

abbrev pub server_notice_packet_class : PacketClass
server_notice_packet_class = record {
  Body = ServerNoticePacket;
  id = 20100;
  encrypted = false;
  use_tcp = false;
  body = server_notice_packet;
}

-- 20101.
pub record ServerBannedPacket : Type 0 where
  pub message : List ℕ
  pub timestamp : ℤ

unfoldable pub server_banned_packet : Serial ServerBannedPacket
server_banned_packet =
    struct (string & i64 & none_left) (λ t. t.message ⊗ t.timestamp ⊗ tt)
      (λ r. record { message = r.0; timestamp = r.1.0 }) (λ t. refl)

abbrev pub server_banned_packet_class : PacketClass
server_banned_packet_class = record {
  Body = ServerBannedPacket;
  id = 20101;
  encrypted = false;
  use_tcp = false;
  body = server_banned_packet;
}

-- 20102.
pub record ServerMutedPacket : Type 0 where
  pub reason : List ℕ
  pub timestamp : ℤ

unfoldable pub server_muted_packet : Serial ServerMutedPacket
server_muted_packet =
    struct (string & i64 & none_left) (λ t. t.reason ⊗ t.timestamp ⊗ tt)
      (λ r. record { reason = r.0; timestamp = r.1.0 }) (λ t. refl)

abbrev pub server_muted_packet_class : PacketClass
server_muted_packet_class = record {
  Body = ServerMutedPacket;
  id = 20102;
  encrypted = false;
  use_tcp = false;
  body = server_muted_packet;
}

-- 20200.
pub record ConnectionTestResponsePacket : Type 0 where
  pub uid : ℕ
  pub content : List ℕ

unfoldable pub connection_test_response_packet : Serial ConnectionTestResponsePacket
connection_test_response_packet =
    struct (u32 & (vector u8) & none_left) (λ t. t.uid ⊗ t.content ⊗ tt)
      (λ r. record { uid = r.0; content = r.1.0 }) (λ t. refl)

abbrev pub connection_test_response_packet_class : PacketClass
connection_test_response_packet_class = record {
  Body = ConnectionTestResponsePacket;
  id = 20200;
  encrypted = false;
  use_tcp = false;
  body = connection_test_response_packet;
}
