-- ===== src/Packets/Server/Admin.antt =====
-- src/data/packets/server/admin.hpp.
use globed.Common.{ℕ, refl, true, false, List, Option}
use globed.Data.Serial.{Serial}
use globed.Data.Serial.Text.{string}
use globed.Data.Serial.Choices.{optional}
use globed.Data.Serial.Members.{none_left, ◌&◌, ◌⊗◌, struct}
use globed.Data.Types.Gd.{PlayerRoomPreviewAccountData, player_room_preview_account_data}
use globed.Data.Types.User.{UserEntry, user_entry, ComputedRole, computed_role}
use globed.Packets.Base.{PacketClass}

-- 29000.
pub record AdminAuthSuccessPacket : Type 0 where
  pub role : ComputedRole

unfoldable pub admin_auth_success_packet : Serial AdminAuthSuccessPacket
admin_auth_success_packet =
    struct (computed_role & none_left) (λ t. t.role ⊗ tt) (λ r. record { role = r.0 }) (λ t. refl)

abbrev pub admin_auth_success_packet_class : PacketClass
admin_auth_success_packet_class = record {
  Body = AdminAuthSuccessPacket;
  id = 29000;
  encrypted = false;
  use_tcp = false;
  body = admin_auth_success_packet;
}

-- 29001.
pub record AdminErrorPacket : Type 0 where
  pub message : List ℕ

unfoldable pub admin_error_packet : Serial AdminErrorPacket
admin_error_packet =
    struct (string & none_left) (λ t. t.message ⊗ tt) (λ r. record { message = r.0 }) (λ t. refl)

abbrev pub admin_error_packet_class : PacketClass
admin_error_packet_class = record {
  Body = AdminErrorPacket;
  id = 29001;
  encrypted = true;
  use_tcp = false;
  body = admin_error_packet;
}

-- 29002.
pub record AdminUserDataPacket : Type 0 where
  pub user_entry_of : UserEntry
  pub account_data : Option PlayerRoomPreviewAccountData

unfoldable pub admin_user_data_packet : Serial AdminUserDataPacket
admin_user_data_packet =
    struct (user_entry & (optional player_room_preview_account_data) & none_left)
      (λ t. t.user_entry_of ⊗ t.account_data ⊗ tt)
      (λ r. record { user_entry_of = r.0; account_data = r.1.0 }) (λ t. refl)

abbrev pub admin_user_data_packet_class : PacketClass
admin_user_data_packet_class = record {
  Body = AdminUserDataPacket;
  id = 29002;
  encrypted = true;
  use_tcp = false;
  body = admin_user_data_packet;
}

-- 29003.
pub record AdminSuccessMessagePacket : Type 0 where
  pub message : List ℕ

unfoldable pub admin_success_message_packet : Serial AdminSuccessMessagePacket
admin_success_message_packet =
    struct (string & none_left) (λ t. t.message ⊗ tt) (λ r. record { message = r.0 }) (λ t. refl)

abbrev pub admin_success_message_packet_class : PacketClass
admin_success_message_packet_class = record {
  Body = AdminSuccessMessagePacket;
  id = 29003;
  encrypted = false;
  use_tcp = false;
  body = admin_success_message_packet;
}

-- 29004.
pub record AdminAuthFailedPacket : Type 0 where

unfoldable pub admin_auth_failed_packet : Serial AdminAuthFailedPacket
admin_auth_failed_packet = struct none_left (λ t. tt) (λ r. record {}) (λ t. refl)

abbrev pub admin_auth_failed_packet_class : PacketClass
admin_auth_failed_packet_class = record {
  Body = AdminAuthFailedPacket;
  id = 29004;
  encrypted = false;
  use_tcp = false;
  body = admin_auth_failed_packet;
}
