-- ===== src/Data/Types/Gd.antt =====
-- src/data/types/gd.hpp.
use globed.Common.{ℕ, refl, List, Option}
use globed.Common.Int.{ℤ}
use globed.Data.Serial.{Serial}
use globed.Data.Serial.Numbers.{u8, i16, i32, i64}
use globed.Data.Serial.Text.{string}
use globed.Data.Serial.Containers.{vector}
use globed.Data.Serial.Choices.{optional}
use globed.Data.Serial.Members.{none_left, ◌&◌, ◌⊗◌, struct}

pub record PlayerIconData : Type 0 where
  pub cube : ℤ
  pub ship : ℤ
  pub ball : ℤ
  pub ufo : ℤ
  pub wave : ℤ
  pub robot : ℤ
  pub spider : ℤ
  pub swing : ℤ
  pub jetpack : ℤ
  pub death_effect : ℕ
  pub color1 : ℕ
  pub color2 : ℕ
  pub glow_color : ℕ
  pub streak : ℕ
  pub ship_streak : ℕ

unfoldable pub player_icon_data : Serial PlayerIconData
player_icon_data =
    struct
      (i16 & i16 & i16 & i16 & i16 & i16 & i16 & i16 & i16 & u8 & u8 & u8 & u8 & u8 & u8
        & none_left)
      (λ t.
        t.cube ⊗ t.ship ⊗ t.ball ⊗ t.ufo ⊗ t.wave ⊗ t.robot ⊗ t.spider ⊗ t.swing ⊗ t.jetpack
        ⊗ t.death_effect ⊗ t.color1 ⊗ t.color2 ⊗ t.glow_color ⊗ t.streak ⊗ t.ship_streak ⊗ tt)
      (λ r. record {
        cube = r.0;
        ship = r.1.0;
        ball = r.1.1.0;
        ufo = r.1.1.1.0;
        wave = r.1.1.1.1.0;
        robot = r.1.1.1.1.1.0;
        spider = r.1.1.1.1.1.1.0;
        swing = r.1.1.1.1.1.1.1.0;
        jetpack = r.1.1.1.1.1.1.1.1.0;
        death_effect = r.1.1.1.1.1.1.1.1.1.0;
        color1 = r.1.1.1.1.1.1.1.1.1.1.0;
        color2 = r.1.1.1.1.1.1.1.1.1.1.1.0;
        glow_color = r.1.1.1.1.1.1.1.1.1.1.1.1.0;
        streak = r.1.1.1.1.1.1.1.1.1.1.1.1.1.0;
        ship_streak = r.1.1.1.1.1.1.1.1.1.1.1.1.1.1.0;
      })
      (λ t. refl)

pub record PlayerIconDataSimple : Type 0 where
  pub cube : ℤ
  pub color1 : ℕ
  pub color2 : ℕ
  pub glow_color : ℕ

unfoldable pub player_icon_data_simple : Serial PlayerIconDataSimple
player_icon_data_simple =
    struct (i16 & u8 & u8 & u8 & none_left) (λ t. t.cube ⊗ t.color1 ⊗ t.color2 ⊗ t.glow_color ⊗ tt)
      (λ r. record { cube = r.0; color1 = r.1.0; color2 = r.1.1.0; glow_color = r.1.1.1.0 })
      (λ t. refl)

pub record SpecialUserData : Type 0 where
  pub roles : Option (List ℕ)

unfoldable pub special_user_data : Serial SpecialUserData
special_user_data =
    struct ((optional (vector u8)) & none_left) (λ t. t.roles ⊗ tt) (λ r. record { roles = r.0 })
      (λ t. refl)

pub record PlayerRoomPreviewAccountData : Type 0 where
  pub account_id : ℤ
  pub user_id : ℤ
  pub name : List ℕ
  pub icons : PlayerIconDataSimple
  pub level_id : ℤ
  pub special_user_data : SpecialUserData

unfoldable pub player_room_preview_account_data : Serial PlayerRoomPreviewAccountData
player_room_preview_account_data =
    struct (i32 & i32 & string & player_icon_data_simple & i64 & special_user_data & none_left)
      (λ t. t.account_id ⊗ t.user_id ⊗ t.name ⊗ t.icons ⊗ t.level_id ⊗ t.special_user_data ⊗ tt)
      (λ r. record {
        account_id = r.0;
        user_id = r.1.0;
        name = r.1.1.0;
        icons = r.1.1.1.0;
        level_id = r.1.1.1.1.0;
        special_user_data = r.1.1.1.1.1.0;
      })
      (λ t. refl)

pub record PlayerPreviewAccountData : Type 0 where
  pub account_id : ℤ
  pub user_id : ℤ
  pub name : List ℕ
  pub icons : PlayerIconDataSimple
  pub special_user_data : SpecialUserData

unfoldable pub player_preview_account_data : Serial PlayerPreviewAccountData
player_preview_account_data =
    struct (i32 & i32 & string & player_icon_data_simple & special_user_data & none_left)
      (λ t. t.account_id ⊗ t.user_id ⊗ t.name ⊗ t.icons ⊗ t.special_user_data ⊗ tt)
      (λ r. record {
        account_id = r.0;
        user_id = r.1.0;
        name = r.1.1.0;
        icons = r.1.1.1.0;
        special_user_data = r.1.1.1.1.0;
      })
      (λ t. refl)

pub record PlayerAccountData : Type 0 where
  pub account_id : ℤ
  pub user_id : ℤ
  pub name : List ℕ
  pub icons : PlayerIconData
  pub special_user_data : SpecialUserData

unfoldable pub player_account_data : Serial PlayerAccountData
player_account_data =
    struct (i32 & i32 & string & player_icon_data & special_user_data & none_left)
      (λ t. t.account_id ⊗ t.user_id ⊗ t.name ⊗ t.icons ⊗ t.special_user_data ⊗ tt)
      (λ r. record {
        account_id = r.0;
        user_id = r.1.0;
        name = r.1.1.0;
        icons = r.1.1.1.0;
        special_user_data = r.1.1.1.1.0;
      })
      (λ t. refl)

-- The simple icons of a full set.
unfoldable pub simple_icons : PlayerIconData → PlayerIconDataSimple
simple_icons d = record {
  cube = d.cube;
  color1 = d.color1;
  color2 = d.color2;
  glow_color = d.glow_color;
}
