-- ===== src/Packets/Client/Admin.antt =====
-- src/data/packets/client/admin.hpp.
use globed.Common.{ℕ, ◌≡◌, ◌^◌, ◌<◌, refl, arith, [], ◌∷◌, some, true, false, List}
use globed.Common.Int.{ℤ}
use globed.Data.Serial.{Serial}
use globed.Data.Serial.Numbers.{u32, i64}
use globed.Data.Serial.Text.{string}
use globed.Data.Serial.Members.{none_left, ◌&◌, ◌⊗◌, struct}
use globed.Data.Serial.Enums.{enum, find_enumerator}
use globed.Data.Types.User.{UserEntry, user_entry}
use globed.Packets.Base.{PacketClass}

pub data AdminSendNoticeType : Type 0 where
  everyone room_or_level person : AdminSendNoticeType

unfoldable pub notice_type_value : AdminSendNoticeType → ℕ
notice_type_value everyone = 0
notice_type_value room_or_level = 1
notice_type_value person = 2

abbrev pub notice_types : List AdminSendNoticeType
notice_types = everyone ∷ room_or_level ∷ person ∷ []

pub notice_type-fits : (t : AdminSendNoticeType) → notice_type_value t < 256 ^ 1
unfolding notice_type_value
notice_type-fits everyone = omega arith
notice_type-fits room_or_level = omega arith
notice_type-fits person = omega arith

pub notice_type-found :
    (t : AdminSendNoticeType)
    → find_enumerator 1 notice_types notice_type_value (notice_type_value t) notice_types ≡ some t
unfolding find_enumerator notice_type_value
notice_type-found everyone = refl
notice_type-found room_or_level = refl
notice_type-found person = refl

unfoldable pub admin_send_notice_type : Serial AdminSendNoticeType
admin_send_notice_type =
    enum 1 notice_types notice_type_value (omega arith) notice_type-fits notice_type-found

-- 19000.
pub record AdminAuthPacket : Type 0 where
  pub key : List ℕ

unfoldable pub admin_auth_packet : Serial AdminAuthPacket
admin_auth_packet =
    struct (string & none_left) (λ t. t.key ⊗ tt) (λ r. record { key = r.0 }) (λ t. refl)

abbrev pub admin_auth_packet_class : PacketClass
admin_auth_packet_class = record {
  Body = AdminAuthPacket;
  id = 19000;
  encrypted = true;
  use_tcp = true;
  body = admin_auth_packet;
}

-- 19001.
pub record AdminSendNoticePacket : Type 0 where
  pub ptype : AdminSendNoticeType
  pub room_id : ℕ
  pub level_id : ℤ
  pub player : List ℕ
  pub message : List ℕ

unfoldable pub admin_send_notice_packet : Serial AdminSendNoticePacket
admin_send_notice_packet =
    struct (admin_send_notice_type & u32 & i64 & string & string & none_left)
      (λ t. t.ptype ⊗ t.room_id ⊗ t.level_id ⊗ t.player ⊗ t.message ⊗ tt)
      (λ r. record {
        ptype = r.0;
        room_id = r.1.0;
        level_id = r.1.1.0;
        player = r.1.1.1.0;
        message = r.1.1.1.1.0;
      })
      (λ t. refl)

abbrev pub admin_send_notice_packet_class : PacketClass
admin_send_notice_packet_class = record {
  Body = AdminSendNoticePacket;
  id = 19001;
  encrypted = true;
  use_tcp = true;
  body = admin_send_notice_packet;
}

-- 19002.
pub record AdminDisconnectPacket : Type 0 where
  pub player : List ℕ
  pub message : List ℕ

unfoldable pub admin_disconnect_packet : Serial AdminDisconnectPacket
admin_disconnect_packet =
    struct (string & string & none_left) (λ t. t.player ⊗ t.message ⊗ tt)
      (λ r. record { player = r.0; message = r.1.0 }) (λ t. refl)

abbrev pub admin_disconnect_packet_class : PacketClass
admin_disconnect_packet_class = record {
  Body = AdminDisconnectPacket;
  id = 19002;
  encrypted = false;
  use_tcp = true;
  body = admin_disconnect_packet;
}

-- 19003.
pub record AdminGetUserStatePacket : Type 0 where
  pub player : List ℕ

unfoldable pub admin_get_user_state_packet : Serial AdminGetUserStatePacket
admin_get_user_state_packet =
    struct (string & none_left) (λ t. t.player ⊗ tt) (λ r. record { player = r.0 }) (λ t. refl)

abbrev pub admin_get_user_state_packet_class : PacketClass
admin_get_user_state_packet_class = record {
  Body = AdminGetUserStatePacket;
  id = 19003;
  encrypted = false;
  use_tcp = true;
  body = admin_get_user_state_packet;
}

-- 19004.
pub record AdminUpdateUserPacket : Type 0 where
  pub user_entry_of : UserEntry

unfoldable pub admin_update_user_packet : Serial AdminUpdateUserPacket
admin_update_user_packet =
    struct (user_entry & none_left) (λ t. t.user_entry_of ⊗ tt)
      (λ r. record { user_entry_of = r.0 }) (λ t. refl)

abbrev pub admin_update_user_packet_class : PacketClass
admin_update_user_packet_class = record {
  Body = AdminUpdateUserPacket;
  id = 19004;
  encrypted = true;
  use_tcp = true;
  body = admin_update_user_packet;
}
