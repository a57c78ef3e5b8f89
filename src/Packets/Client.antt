-- ===== src/Packets/Client.antt =====
-- src/data/packets/client/connection.hpp.
mod General
unfoldable pub use General.*
mod Game
unfoldable pub use Game.*
mod Room
unfoldable pub use Room.*
mod Admin
unfoldable pub use Admin.*
use globed.Common.{ℕ, refl, Bool, true, false, List}
use globed.Common.Int.{ℤ}
use globed.Data.Serial.{Serial}
use globed.Data.Serial.Numbers.{u8, u16, u32, i32, boolean}
use globed.Data.Serial.Text.{string}
use globed.Data.Serial.Containers.{vector}
use globed.Data.Serial.Members.{none_left, ◌&◌, ◌⊗◌, struct}
use globed.Data.Types.Gd.{PlayerIconData, player_icon_data}
use globed.Packets.Crypto.{CryptoPublicKey, crypto_public_key}
use globed.Packets.Base.{PacketClass}

-- 10000.
pub record PingPacket : Type 0 where
  pub id : ℕ

unfoldable pub ping_packet : Serial PingPacket
ping_packet = struct (u32 & none_left) (λ t. t.id ⊗ tt) (λ r. record { id = r.0 }) (λ t. refl)

abbrev pub ping_packet_class : PacketClass
ping_packet_class = record {
  Body = PingPacket;
  id = 10000;
  encrypted = false;
  use_tcp = false;
  body = ping_packet;
}

-- 10001.
pub record CryptoHandshakeStartPacket : Type 0 where
  pub protocol : ℕ
  pub key : CryptoPublicKey

unfoldable pub crypto_handshake_start_packet : Serial CryptoHandshakeStartPacket
crypto_handshake_start_packet =
    struct (u16 & crypto_public_key & none_left) (λ t. t.protocol ⊗ t.key ⊗ tt)
      (λ r. record { protocol = r.0; key = r.1.0 }) (λ t. refl)

abbrev pub crypto_handshake_start_packet_class : PacketClass
crypto_handshake_start_packet_class = record {
  Body = CryptoHandshakeStartPacket;
  id = 10001;
  encrypted = false;
  use_tcp = true;
  body = crypto_handshake_start_packet;
}

-- 10002.
pub record KeepalivePacket : Type 0 where

unfoldable pub keepalive_packet : Serial KeepalivePacket
keepalive_packet = struct none_left (λ t. tt) (λ r. record {}) (λ t. refl)

abbrev pub keepalive_packet_class : PacketClass
keepalive_packet_class = record {
  Body = KeepalivePacket;
  id = 10002;
  encrypted = false;
  use_tcp = false;
  body = keepalive_packet;
}

-- 10003.
pub record LoginPacket : Type 0 where
  pub account_id : ℤ
  pub user_id : ℤ
  pub name : List ℕ
  pub token : List ℕ
  pub icons : PlayerIconData
  pub fragmentation_limit : ℕ
  pub platform : List ℕ
  pub is_invisible : Bool

unfoldable pub login_packet : Serial LoginPacket
login_packet =
    struct (i32 & i32 & string & string & player_icon_data & u16 & string & boolean & none_left)
      (λ t.
        t.account_id ⊗ t.user_id ⊗ t.name ⊗ t.token ⊗ t.icons ⊗ t.fragmentation_limit ⊗ t.platform
        ⊗ t.is_invisible ⊗ tt)
      (λ r. record {
        account_id = r.0;
        user_id = r.1.0;
        name = r.1.1.0;
        token = r.1.1.1.0;
        icons = r.1.1.1.1.0;
        fragmentation_limit = r.1.1.1.1.1.0;
        platform = r.1.1.1.1.1.1.0;
        is_invisible = r.1.1.1.1.1.1.1.0;
      })
      (λ t. refl)

abbrev pub login_packet_class : PacketClass
login_packet_class = record {
  Body = LoginPacket;
  id = 10003;
  encrypted = true;
  use_tcp = true;
  body = login_packet;
}

-- 10005.
pub record ClaimThreadPacket : Type 0 where
  pub secret_key : ℕ

unfoldable pub claim_thread_packet : Serial ClaimThreadPacket
claim_thread_packet =
    struct (u32 & none_left) (λ t. t.secret_key ⊗ tt) (λ r. record { secret_key = r.0 }) (λ t. refl)

abbrev pub claim_thread_packet_class : PacketClass
claim_thread_packet_class = record {
  Body = ClaimThreadPacket;
  id = 10005;
  encrypted = false;
  use_tcp = false;
  body = claim_thread_packet;
}

-- 10006.
pub record DisconnectPacket : Type 0 where

unfoldable pub disconnect_packet : Serial DisconnectPacket
disconnect_packet = struct none_left (λ t. tt) (λ r. record {}) (λ t. refl)

abbrev pub disconnect_packet_class : PacketClass
disconnect_packet_class = record {
  Body = DisconnectPacket;
  id = 10006;
  encrypted = false;
  use_tcp = false;
  body = disconnect_packet;
}

-- 10007.
pub record KeepaliveTcpPacket : Type 0 where

unfoldable pub keepalive_tcp_packet : Serial KeepaliveTcpPacket
keepalive_tcp_packet = struct none_left (λ t. tt) (λ r. record {}) (λ t. refl)

abbrev pub keepalive_tcp_packet_class : PacketClass
keepalive_tcp_packet_class = record {
  Body = KeepaliveTcpPacket;
  id = 10007;
  encrypted = false;
  use_tcp = true;
  body = keepalive_tcp_packet;
}

-- 10200.
pub record ConnectionTestPacket : Type 0 where
  pub uid : ℕ
  pub content : List ℕ

unfoldable pub connection_test_packet : Serial ConnectionTestPacket
connection_test_packet =
    struct (u32 & (vector u8) & none_left) (λ t. t.uid ⊗ t.content ⊗ tt)
      (λ r. record { uid = r.0; content = r.1.0 }) (λ t. refl)

abbrev pub connection_test_packet_class : PacketClass
connection_test_packet_class = record {
  Body = ConnectionTestPacket;
  id = 10200;
  encrypted = false;
  use_tcp = false;
  body = connection_test_packet;
}
