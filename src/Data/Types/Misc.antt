-- ===== src/Data/Types/Misc.antt =====
-- src/data/types/misc.hpp, and the cocos2d colours and points of src/data/bytebuffer.cpp.
use globed.Common.{ℕ, refl, List}
use globed.Common.Int.{ℤ}
use globed.Data.Serial.{Serial}
use globed.Data.Serial.Numbers.{u8, u16, u32, f32, i64}
use globed.Data.Serial.Text.{string}
use globed.Data.Serial.Containers.{vector}
use globed.Data.Serial.Choices.{Either, either}
use globed.Data.Serial.Members.{none_left, ◌&◌, ◌⊗◌, struct}

-- `cocos2d::ccColor3B`.
pub record Color3 : Type 0 where
  pub r : ℕ
  pub g : ℕ
  pub b : ℕ

unfoldable pub color3 : Serial Color3
color3 =
    struct (u8 & u8 & u8 & none_left) (λ t. t.r ⊗ t.g ⊗ t.b ⊗ tt)
      (λ r. record { r = r.0; g = r.1.0; b = r.1.1.0 }) (λ t. refl)

-- `cocos2d::ccColor4B`.
pub record Color4 : Type 0 where
  pub r : ℕ
  pub g : ℕ
  pub b : ℕ
  pub a : ℕ

unfoldable pub color4 : Serial Color4
color4 =
    struct (u8 & u8 & u8 & u8 & none_left) (λ t. t.r ⊗ t.g ⊗ t.b ⊗ t.a ⊗ tt)
      (λ r. record { r = r.0; g = r.1.0; b = r.1.1.0; a = r.1.1.1.0 }) (λ t. refl)

-- `cocos2d::CCPoint`.
pub record Point : Type 0 where
  pub x : ℕ
  pub y : ℕ

unfoldable pub point : Serial Point
point =
    struct (f32 & f32 & none_left) (λ t. t.x ⊗ t.y ⊗ tt) (λ r. record { x = r.0; y = r.1.0 })
      (λ t. refl)

-- `cocos2d::CCSize`.
pub record Size : Type 0 where
  pub width : ℕ
  pub height : ℕ

unfoldable pub size : Serial Size
size =
    struct (f32 & f32 & none_left) (λ t. t.width ⊗ t.height ⊗ tt)
      (λ r. record { width = r.0; height = r.1.0 }) (λ t. refl)

pub record GameServerEntry : Type 0 where
  pub id : List ℕ
  pub name : List ℕ
  pub address : List ℕ
  pub region : List ℕ

unfoldable pub game_server_entry : Serial GameServerEntry
game_server_entry =
    struct (string & string & string & string & none_left)
      (λ t. t.id ⊗ t.name ⊗ t.address ⊗ t.region ⊗ tt)
      (λ r. record { id = r.0; name = r.1.0; address = r.1.1.0; region = r.1.1.1.0 }) (λ t. refl)

-- `LevelId` is `int64_t`.
pub record GlobedLevel : Type 0 where
  pub level_id : ℤ
  pub player_count : ℕ

unfoldable pub globed_level : Serial GlobedLevel
globed_level =
    struct (i64 & u16 & none_left) (λ t. t.level_id ⊗ t.player_count ⊗ tt)
      (λ r. record { level_id = r.0; player_count = r.1.0 }) (λ t. refl)

pub record ErrorMessage : Type 0 where
  pub hash : ℕ

unfoldable pub error_message : Serial ErrorMessage
error_message = struct (u32 & none_left) (λ t. t.hash ⊗ tt) (λ r. record { hash = r.0 }) (λ t. refl)

pub record CustomErrorMessage : Type 0 where
  pub variant : Either ErrorMessage (List ℕ)

unfoldable pub custom_error_message : Serial CustomErrorMessage
custom_error_message =
    struct ((either error_message string) & none_left) (λ t. t.variant ⊗ tt)
      (λ r. record { variant = r.0 }) (λ t. refl)

pub record RichColor : Type 0 where
  pub inner : Either Color3 (List Color3)

unfoldable pub rich_color : Serial RichColor
rich_color =
    struct ((either color3 (vector color3)) & none_left) (λ t. t.inner ⊗ tt)
      (λ r. record { inner = r.0 }) (λ t. refl)
