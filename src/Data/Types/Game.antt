-- ===== src/Data/Types/Game.antt =====
-- src/data/types/game.hpp, src/data/types/game.cpp.
mod Icons
unfoldable pub use Icons.*
use globed.Common.{ℕ, ◌≡◌, refl, Bool, false, List, [], ◌∷◌, arith}
use globed.Common.Int.{ℤ}
use globed.Data.Bits.Bitfield.{flags}
use globed.Data.Serial.{Serial}
use globed.Data.Serial.Numbers.{u32, f32, i32}
use globed.Data.Serial.Members.{none_left, ◌&◌, ◌⊗◌, struct}
use globed.Data.Types.Game.Icons.{SpecificIconData, specific_icon_data}

pub record PlayerData : Type 0 where
  pub timestamp : ℕ
  pub player1 : SpecificIconData
  pub player2 : SpecificIconData
  pub last_death_timestamp : ℕ
  pub current_percentage : ℕ
  pub is_dead : Bool
  pub is_paused : Bool
  pub is_practicing : Bool
  pub is_dual_mode : Bool
  pub is_in_editor : Bool
  pub is_editor_building : Bool

unfoldable pub player_flag_list : PlayerData → List Bool
player_flag_list d =
    d.is_dead ∷ d.is_paused ∷ d.is_practicing ∷ d.is_dual_mode ∷ d.is_in_editor
    ∷ d.is_editor_building ∷ []

unfoldable pub player_of : ℕ → SpecificIconData → SpecificIconData → ℕ → ℕ → List Bool → PlayerData
player_of time one two death percent (a ∷ b ∷ c ∷ d ∷ e ∷ f ∷ []) = record {
  timestamp = time;
  player1 = one;
  player2 = two;
  last_death_timestamp = death;
  current_percentage = percent;
  is_dead = a;
  is_paused = b;
  is_practicing = c;
  is_dual_mode = d;
  is_in_editor = e;
  is_editor_building = f;
}
player_of time one two death percent _ = record {
  timestamp = time;
  player1 = one;
  player2 = two;
  last_death_timestamp = death;
  current_percentage = percent;
  is_dead = false;
  is_paused = false;
  is_practicing = false;
  is_dual_mode = false;
  is_in_editor = false;
  is_editor_building = false;
}

pub player_back :
    (d : PlayerData)
    → player_of d.timestamp d.player1 d.player2 d.last_death_timestamp d.current_percentage
        (player_flag_list d)
      ≡ d
unfolding player_of player_flag_list
player_back d = refl

-- The six flags go into `BitBuffer<8>`.
unfoldable pub player_flags : Serial (List Bool)
player_flags = flags 2 6 (omega arith)

unfoldable pub player_data : Serial PlayerData
player_data =
    struct (f32 & specific_icon_data & specific_icon_data & f32 & f32 & player_flags & none_left)
      (λ d.
        d.timestamp
        ⊗ d.player1
        ⊗ d.player2
        ⊗ d.last_death_timestamp
        ⊗ d.current_percentage
        ⊗ player_flag_list d
        ⊗ tt)
      (λ r. player_of r.0 r.1.0 r.1.1.0 r.1.1.1.0 r.1.1.1.1.0 r.1.1.1.1.1.0) player_back

pub record PlayerMetadata : Type 0 where
  pub local_best : ℕ
  pub attempts : ℤ

unfoldable pub player_metadata : Serial PlayerMetadata
player_metadata =
    struct (u32 & i32 & none_left) (λ t. t.local_best ⊗ t.attempts ⊗ tt)
      (λ r. record { local_best = r.0; attempts = r.1.0 }) (λ t. refl)

-- src/data/types/gd.hpp; `data` is `data_of` here.
pub record AssociatedPlayerData : Type 0 where
  pub account_id : ℤ
  pub data_of : PlayerData

unfoldable pub associated_player_data : Serial AssociatedPlayerData
associated_player_data =
    struct (i32 & player_data & none_left) (λ t. t.account_id ⊗ t.data_of ⊗ tt)
      (λ r. record { account_id = r.0; data_of = r.1.0 }) (λ t. refl)

pub record AssociatedPlayerMetadata : Type 0 where
  pub account_id : ℤ
  pub data_of : PlayerMetadata

unfoldable pub associated_player_metadata : Serial AssociatedPlayerMetadata
associated_player_metadata =
    struct (i32 & player_metadata & none_left) (λ t. t.account_id ⊗ t.data_of ⊗ tt)
      (λ r. record { account_id = r.0; data_of = r.1.0 }) (λ t. refl)
