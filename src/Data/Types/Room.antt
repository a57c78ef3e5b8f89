-- ===== src/Data/Types/Room.antt =====
-- src/data/types/room.hpp.
use globed.Common.{ℕ, ◌+◌, ◌≤◌, ◌≡◌, refl, Bool, false, List, [], ◌∷◌, arith}
use globed.Data.Bits.Bitfield.{bitfield, bitcount}
use globed.Data.Serial.{Serial, converted}
use globed.Data.Serial.Numbers.{u32, boolean}
use globed.Data.Serial.Text.{string}
use globed.Data.Serial.Members.{none_left, ◌&◌, ◌⊗◌, struct}
use globed.Data.Types.Gd.{PlayerPreviewAccountData, player_preview_account_data}

-- The described flags; the five pads are not described.
pub record RoomSettingsFlags : Type 0 where
  pub is_hidden : Bool
  pub public_invites : Bool
  pub collision : Bool
  pub two_player_mode : Bool

unfoldable pub room_flag_list : RoomSettingsFlags → List Bool
room_flag_list f = f.is_hidden ∷ f.public_invites ∷ f.collision ∷ f.two_player_mode ∷ []

unfoldable pub room_flags_of : List Bool → RoomSettingsFlags
room_flags_of (a ∷ b ∷ c ∷ d ∷ []) = record {
  is_hidden = a;
  public_invites = b;
  collision = c;
  two_player_mode = d;
}
room_flags_of _ = record {
  is_hidden = false;
  public_invites = false;
  collision = false;
  two_player_mode = false;
}

pub room_flags_back : (f : RoomSettingsFlags) → room_flags_of (room_flag_list f) ≡ f
unfolding room_flags_of room_flag_list
room_flags_back f = refl

-- `sizeof(RoomSettingsFlags)` is 9, which makes 16 bits.
pub room_bits : 12 + 4 ≡ bitcount 9
unfolding bitcount
room_bits = refl

pub room_bits_fit : bitcount 9 ≤ 64
unfolding bitcount
room_bits_fit = omega arith

pub room_flags-fit :
    (f : RoomSettingsFlags)
    → Unit {0}
    → (bitfield 9 12 4 room_bits room_bits_fit).IsFit (room_flag_list f)
unfolding bitfield room_flag_list
room_flags-fit f u = refl

unfoldable pub room_settings_flags : Serial RoomSettingsFlags
room_settings_flags =
    converted (bitfield 9 12 4 room_bits room_bits_fit) room_flag_list room_flags_of (λ f. Unit)
      room_flags-fit (λ f u. room_flags_back f)

pub record RoomSettings : Type 0 where
  pub flags : RoomSettingsFlags
  pub player_limit : ℕ

unfoldable pub room_settings : Serial RoomSettings
room_settings =
    struct (room_settings_flags & u32 & none_left) (λ t. t.flags ⊗ t.player_limit ⊗ tt)
      (λ r. record { flags = r.0; player_limit = r.1.0 }) (λ t. refl)

pub record RoomInfo : Type 0 where
  pub id : ℕ
  pub owner : PlayerPreviewAccountData
  pub name : List ℕ
  pub password : List ℕ
  pub settings : RoomSettings

unfoldable pub room_info : Serial RoomInfo
room_info =
    struct (u32 & player_preview_account_data & string & string & room_settings & none_left)
      (λ t. t.id ⊗ t.owner ⊗ t.name ⊗ t.password ⊗ t.settings ⊗ tt)
      (λ r. record {
        id = r.0;
        owner = r.1.0;
        name = r.1.1.0;
        password = r.1.1.1.0;
        settings = r.1.1.1.1.0;
      })
      (λ t. refl)

pub record RoomListingInfo : Type 0 where
  pub id : ℕ
  pub owner : PlayerPreviewAccountData
  pub name : List ℕ
  pub has_password : Bool
  pub settings : RoomSettings

unfoldable pub room_listing_info : Serial RoomListingInfo
room_listing_info =
    struct (u32 & player_preview_account_data & string & boolean & room_settings & none_left)
      (λ t. t.id ⊗ t.owner ⊗ t.name ⊗ t.has_password ⊗ t.settings ⊗ tt)
      (λ r. record {
        id = r.0;
        owner = r.1.0;
        name = r.1.1.0;
        has_password = r.1.1.1.0;
        settings = r.1.1.1.1.0;
      })
      (λ t. refl)
