-- ===== src/Packets/Base.antt =====
-- src/data/packets/packet.hpp: what `GLOBED_PACKET` says of a packet class, and the header.
use globed.Common.{ℕ, refl, Bool}
use globed.Data.Serial.{Serial}
use globed.Data.Serial.Numbers.{u16, boolean}
use globed.Data.Serial.Members.{none_left, ◌&◌, ◌⊗◌, struct}

pub record PacketClass : Type 1 where
  pub Body : Type 0
  pub id : ℕ
  pub encrypted : Bool
  pub use_tcp : Bool
  pub body : Serial Body

pub record PacketHeader : Type 0 where
  pub id : ℕ
  pub encrypted : Bool

unfoldable pub packet_header : Serial PacketHeader
packet_header =
    struct (u16 & boolean & none_left) (λ t. t.id ⊗ t.encrypted ⊗ tt)
      (λ r. record { id = r.0; encrypted = r.1.0 }) (λ t. refl)

-- `PacketHeader::SIZE`.
abbrev pub header_size : ℕ
header_size = 3
