-- ===== src/Game/PlayerStates.antt =====
-- src/game/visual_state.hpp, and the frames and states of src/game/interpolator.hpp.
use globed.Common.{ℕ, Bool, false, Option, none}
use globed.Data.Types.Game.{PlayerData, SpecificIconData, SpiderTeleportData, unknown}

pub record VisualPlayerState : Type 0 where
  pub player1 : SpecificIconData
  pub player2 : SpecificIconData
  pub current_percentage : ℕ
  pub is_dead : Bool
  pub is_paused : Bool
  pub is_practicing : Bool
  pub is_dual_mode : Bool
  pub is_in_editor : Bool
  pub is_editor_building : Bool

abbrev pub no_icon : SpecificIconData
no_icon = record {
  position = record { x = 0; y = 0 };
  rotation = 0;
  icon_type = unknown;
  is_visible = false;
  is_looking_left = false;
  is_upside_down = false;
  is_dashing = false;
  is_mini = false;
  is_grounded = false;
  is_stationary = false;
  is_falling = false;
  did_just_jump = false;
  is_rotating = false;
  is_sideways = false;
  spider_teleport_data = none;
}

abbrev no_visual : VisualPlayerState
no_visual = record {
  player1 = no_icon;
  player2 = no_icon;
  current_percentage = 0;
  is_dead = false;
  is_paused = false;
  is_practicing = false;
  is_dual_mode = false;
  is_in_editor = false;
  is_editor_building = false;
}

unfoldable pub visual_of : PlayerData → VisualPlayerState
visual_of d = record {
  player1 = d.player1;
  player2 = d.player2;
  current_percentage = d.current_percentage;
  is_dead = d.is_dead;
  is_paused = d.is_paused;
  is_practicing = d.is_practicing;
  is_dual_mode = d.is_dual_mode;
  is_in_editor = d.is_in_editor;
  is_editor_building = d.is_editor_building;
}

pub record FrameFlags : Type 0 where
  pub pending_death : Bool
  pub pending_p1_jump : Bool
  pub pending_p2_jump : Bool
  pub pending_p1_teleport : Option SpiderTeleportData
  pub pending_p2_teleport : Option SpiderTeleportData

abbrev pub no_flags : FrameFlags
no_flags = record {
  pending_death = false;
  pending_p1_jump = false;
  pending_p2_jump = false;
  pending_p1_teleport = none;
  pending_p2_teleport = none;
}

pub record LerpFrame : Type 0 where
  pub timestamp : ℕ
  pub visual : VisualPlayerState

abbrev no_frame : LerpFrame
no_frame = record { timestamp = 0; visual = no_visual }

unfoldable pub frame_of_data : PlayerData → LerpFrame
unfolding visual_of
frame_of_data d = record { timestamp = d.timestamp; visual = visual_of d }

pub record PlayerState : Type 0 where
  pub update_counter : ℕ
  pub time_counter : ℕ
  pub last_death_timestamp : ℕ
  pub total_frames : ℕ
  pub older_frame : LerpFrame
  pub newer_frame : LerpFrame
  pub interpolated_state : VisualPlayerState
  pub pending_real_frame : Bool
  pub frame_flags : FrameFlags

abbrev pub new_player : PlayerState
new_player = record {
  update_counter = 0;
  time_counter = 0;
  last_death_timestamp = 0;
  total_frames = 0;
  older_frame = no_frame;
  newer_frame = no_frame;
  interpolated_state = no_visual;
  pending_real_frame = false;
  frame_flags = no_flags;
}
