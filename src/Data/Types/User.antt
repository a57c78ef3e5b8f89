-- ===== src/Data/Types/User.antt =====
-- src/data/types/user.hpp, src/data/types/admin.hpp.
use globed.Common.{ℕ, refl, Bool, List, Option}
use globed.Common.Int.{ℤ}
use globed.Data.Serial.{Serial}
use globed.Data.Serial.Numbers.{u8, i32, i64, boolean}
use globed.Data.Serial.Text.{string}
use globed.Data.Serial.Containers.{vector}
use globed.Data.Serial.Choices.{optional}
use globed.Data.Serial.Members.{none_left, ◌&◌, ◌⊗◌, struct}
use globed.Data.Types.Misc.{Color3, color3, RichColor, rich_color}

pub record ServerRole : Type 0 where
  pub id : List ℕ
  pub priority : ℤ
  pub badge_icon : List ℕ
  pub name_color : List ℕ
  pub chat_color : List ℕ
  pub notices : Bool
  pub notices_to_everyone : Bool
  pub kick : Bool
  pub kick_everyone : Bool
  pub mute : Bool
  pub ban : Bool
  pub edit_role : Bool
  pub admin : Bool

unfoldable pub server_role : Serial ServerRole
server_role =
    struct
      (string & i32 & string & string & string & boolean & boolean & boolean & boolean & boolean
        & boolean & boolean & boolean & none_left)
      (λ t.
        t.id ⊗ t.priority ⊗ t.badge_icon ⊗ t.name_color ⊗ t.chat_color ⊗ t.notices
        ⊗ t.notices_to_everyone ⊗ t.kick ⊗ t.kick_everyone ⊗ t.mute ⊗ t.ban ⊗ t.edit_role ⊗ t.admin
        ⊗ tt)
      (λ r. record {
        id = r.0;
        priority = r.1.0;
        badge_icon = r.1.1.0;
        name_color = r.1.1.1.0;
        chat_color = r.1.1.1.1.0;
        notices = r.1.1.1.1.1.0;
        notices_to_everyone = r.1.1.1.1.1.1.0;
        kick = r.1.1.1.1.1.1.1.0;
        kick_everyone = r.1.1.1.1.1.1.1.1.0;
        mute = r.1.1.1.1.1.1.1.1.1.0;
        ban = r.1.1.1.1.1.1.1.1.1.1.0;
        edit_role = r.1.1.1.1.1.1.1.1.1.1.1.0;
        admin = r.1.1.1.1.1.1.1.1.1.1.1.1.0;
      })
      (λ t. refl)

pub record GameServerRole : Type 0 where
  pub int_id : ℕ
  pub role : ServerRole

unfoldable pub game_server_role : Serial GameServerRole
game_server_role =
    struct (u8 & server_role & none_left) (λ t. t.int_id ⊗ t.role ⊗ tt)
      (λ r. record { int_id = r.0; role = r.1.0 }) (λ t. refl)

pub record UserEntry : Type 0 where
  pub account_id : ℤ
  pub user_name : Option (List ℕ)
  pub name_color : Option (List ℕ)
  pub user_roles : List (List ℕ)
  pub is_banned : Bool
  pub is_muted : Bool
  pub is_whitelisted : Bool
  pub admin_password : Option (List ℕ)
  pub violation_reason : Option (List ℕ)
  pub violation_expiry : Option ℤ

unfoldable pub user_entry : Serial UserEntry
user_entry =
    struct
      (i32
        & (optional string)
        & (optional string)
        & (vector string)
        & boolean
        & boolean
        & boolean
        & (optional string)
        & (optional string)
        & (optional i64)
        & none_left)
      (λ t.
        t.account_id ⊗ t.user_name ⊗ t.name_color ⊗ t.user_roles ⊗ t.is_banned ⊗ t.is_muted
        ⊗ t.is_whitelisted ⊗ t.admin_password ⊗ t.violation_reason ⊗ t.violation_expiry ⊗ tt)
      (λ r. record {
        account_id = r.0;
        user_name = r.1.0;
        name_color = r.1.1.0;
        user_roles = r.1.1.1.0;
        is_banned = r.1.1.1.1.0;
        is_muted = r.1.1.1.1.1.0;
        is_whitelisted = r.1.1.1.1.1.1.0;
        admin_password = r.1.1.1.1.1.1.1.0;
        violation_reason = r.1.1.1.1.1.1.1.1.0;
        violation_expiry = r.1.1.1.1.1.1.1.1.1.0;
      })
      (λ t. refl)

pub record ComputedRole : Type 0 where
  pub priority : ℤ
  pub badge_icon : List ℕ
  pub name_color : Option RichColor
  pub chat_color : Option Color3
  pub notices : Bool
  pub notices_to_everyone : Bool
  pub kick : Bool
  pub kick_everyone : Bool
  pub mute : Bool
  pub ban : Bool
  pub edit_role : Bool
  pub admin : Bool

unfoldable pub computed_role : Serial ComputedRole
computed_role =
    struct
      (i32
        & string
        & (optional rich_color)
        & (optional color3)
        & boolean
        & boolean
        & boolean
        & boolean
        & boolean
        & boolean
        & boolean
        & boolean
        & none_left)
      (λ t.
        t.priority ⊗ t.badge_icon ⊗ t.name_color ⊗ t.chat_color ⊗ t.notices ⊗ t.notices_to_everyone
        ⊗ t.kick ⊗ t.kick_everyone ⊗ t.mute ⊗ t.ban ⊗ t.edit_role ⊗ t.admin ⊗ tt)
      (λ r. record {
        priority = r.0;
        badge_icon = r.1.0;
        name_color = r.1.1.0;
        chat_color = r.1.1.1.0;
        notices = r.1.1.1.1.0;
        notices_to_everyone = r.1.1.1.1.1.0;
        kick = r.1.1.1.1.1.1.0;
        kick_everyone = r.1.1.1.1.1.1.1.0;
        mute = r.1.1.1.1.1.1.1.1.0;
        ban = r.1.1.1.1.1.1.1.1.1.0;
        edit_role = r.1.1.1.1.1.1.1.1.1.1.0;
        admin = r.1.1.1.1.1.1.1.1.1.1.1.0;
      })
      (λ t. refl)
