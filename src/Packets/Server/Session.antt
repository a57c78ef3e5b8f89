-- ===== src/Packets/Server/Session.antt =====
-- src/data/packets/server/connection.hpp: the packets of a session, up to its recovery.
use globed.Common.{ℕ, refl, false, List}
use globed.Data.Serial.{Serial}
use globed.Data.Serial.Numbers.{u16, u32}
use globed.Data.Serial.Text.{string}
use globed.Data.Serial.Containers.{vector}
use globed.Data.Serial.Members.{none_left, ◌&◌, ◌⊗◌, struct}
use globed.Data.Types.Gd.{SpecialUserData, special_user_data}
use globed.Data.Types.User.{GameServerRole, game_server_role}
use globed.Packets.Crypto.{CryptoPublicKey, crypto_public_key}
use globed.Packets.Base.{PacketClass}

-- 20000.
pub record PingResponsePacket : Type 0 where
  pub id : ℕ
  pub player_count : ℕ

unfoldable pub ping_response_packet : Serial PingResponsePacket
ping_response_packet =
    struct (u32 & u32 & none_left) (λ t. t.id ⊗ t.player_count ⊗ tt)
      (λ r. record { id = r.0; player_count = r.1.0 }) (λ t. refl)

abbrev pub ping_response_packet_class : PacketClass
ping_response_packet_class = record {
  Body = PingResponsePacket;
  id = 20000;
  encrypted = false;
  use_tcp = false;
  body = ping_response_packet;
}

-- 20001.
pub record CryptoHandshakeResponsePacket : Type 0 where
  pub key : CryptoPublicKey

unfoldable pub crypto_handshake_response_packet : Serial CryptoHandshakeResponsePacket
crypto_handshake_response_packet =
    struct (crypto_public_key & none_left) (λ t. t.key ⊗ tt) (λ r. record { key = r.0 }) (λ t. refl)

abbrev pub crypto_handshake_response_packet_class : PacketClass
crypto_handshake_response_packet_class = record {
  Body = CryptoHandshakeResponsePacket;
  id = 20001;
  encrypted = false;
  use_tcp = false;
  body = crypto_handshake_response_packet;
}

-- 20002.
pub record KeepaliveResponsePacket : Type 0 where
  pub player_count : ℕ

unfoldable pub keepalive_response_packet : Serial KeepaliveResponsePacket
keepalive_response_packet =
    struct (u32 & none_left) (λ t. t.player_count ⊗ tt) (λ r. record { player_count = r.0 })
      (λ t. refl)

abbrev pub keepalive_response_packet_class : PacketClass
keepalive_response_packet_class = record {
  Body = KeepaliveResponsePacket;
  id = 20002;
  encrypted = false;
  use_tcp = false;
  body = keepalive_response_packet;
}

-- 20003.
pub record ServerDisconnectPacket : Type 0 where
  pub message : List ℕ

unfoldable pub server_disconnect_packet : Serial ServerDisconnectPacket
server_disconnect_packet =
    struct (string & none_left) (λ t. t.message ⊗ tt) (λ r. record { message = r.0 }) (λ t. refl)

abbrev pub server_disconnect_packet_class : PacketClass
server_disconnect_packet_class = record {
  Body = ServerDisconnectPacket;
  id = 20003;
  encrypted = false;
  use_tcp = false;
  body = server_disconnect_packet;
}

-- 20004.
pub record LoggedInPacket : Type 0 where
  pub tps : ℕ
  pub special_user_data_of : SpecialUserData
  pub all_roles : List GameServerRole
  pub secret_key : ℕ

unfoldable pub logged_in_packet : Serial LoggedInPacket
logged_in_packet =
    struct (u32 & special_user_data & (vector game_server_role) & u32 & none_left)
      (λ t. t.tps ⊗ t.special_user_data_of ⊗ t.all_roles ⊗ t.secret_key ⊗ tt)
      (λ r. record {
        tps = r.0;
        special_user_data_of = r.1.0;
        all_roles = r.1.1.0;
        secret_key = r.1.1.1.0;
      })
      (λ t. refl)

abbrev pub logged_in_packet_class : PacketClass
logged_in_packet_class = record {
  Body = LoggedInPacket;
  id = 20004;
  encrypted = false;
  use_tcp = false;
  body = logged_in_packet;
}

-- 20005.
pub record LoginFailedPacket : Type 0 where
  pub message : List ℕ

unfoldable pub login_failed_packet : Serial LoginFailedPacket
login_failed_packet =
    struct (string & none_left) (λ t. t.message ⊗ tt) (λ r. record { message = r.0 }) (λ t. refl)

abbrev pub login_failed_packet_class : PacketClass
login_failed_packet_class = record {
  Body = LoginFailedPacket;
  id = 20005;
  encrypted = false;
  use_tcp = false;
  body = login_failed_packet;
}

-- 20006.
pub record ProtocolMismatchPacket : Type 0 where
  pub server_protocol : ℕ
  pub min_client_version : List ℕ

unfoldable pub protocol_mismatch_packet : Serial ProtocolMismatchPacket
protocol_mismatch_packet =
    struct (u16 & string & none_left) (λ t. t.server_protocol ⊗ t.min_client_version ⊗ tt)
      (λ r. record { server_protocol = r.0; min_client_version = r.1.0 }) (λ t. refl)

abbrev pub protocol_mismatch_packet_class : PacketClass
protocol_mismatch_packet_class = record {
  Body = ProtocolMismatchPacket;
  id = 20006;
  encrypted = false;
  use_tcp = false;
  body = protocol_mismatch_packet;
}

-- 20007.
pub record KeepaliveTcpResponsePacket : Type 0 where

unfoldable pub keepalive_tcp_response_packet : Serial KeepaliveTcpResponsePacket
keepalive_tcp_response_packet = struct none_left (λ t. tt) (λ r. record {}) (λ t. refl)

abbrev pub keepalive_tcp_response_packet_class : PacketClass
keepalive_tcp_response_packet_class = record {
  Body = KeepaliveTcpResponsePacket;
  id = 20007;
  encrypted = false;
  use_tcp = false;
  body = keepalive_tcp_response_packet;
}

-- 20008.
pub record ClaimThreadFailedPacket : Type 0 where

unfoldable pub claim_thread_failed_packet : Serial ClaimThreadFailedPacket
claim_thread_failed_packet = struct none_left (λ t. tt) (λ r. record {}) (λ t. refl)

abbrev pub claim_thread_failed_packet_class : PacketClass
claim_thread_failed_packet_class = record {
  Body = ClaimThreadFailedPacket;
  id = 20008;
  encrypted = false;
  use_tcp = false;
  body = claim_thread_failed_packet;
}

-- 20009.
pub record LoginRecoveryFailecPacket : Type 0 where

unfoldable pub login_recovery_failec_packet : Serial LoginRecoveryFailecPacket
login_recovery_failec_packet = struct none_left (λ t. tt) (λ r. record {}) (λ t. refl)

abbrev pub login_recovery_failec_packet_class : PacketClass
login_recovery_failec_packet_class = record {
  Body = LoginRecoveryFailecPacket;
  id = 20009;
  encrypted = false;
  use_tcp = false;
  body = login_recovery_failec_packet;
}
