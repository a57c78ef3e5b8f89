-- ===== src/Game/Interpolator.antt =====
-- src/game/interpolator.cpp, and `util::math::equal`, `util::misc::swapFlag`. A float is its bit
-- pattern, with one pattern for both zeros; what is computed of floats is `Floats`. `players.at` of a player who is not there throws: `none`.
pub mod Frames
pub mod Way
pub mod Flags
use globed.Common.{
  ℕ, suc, Bool, true, not, ◌&&◌, ◌||◌, Option, none, some, map, ltb, ◌==◌, if◌then◌else◌,
}
use globed.Common.Int.{ℤ}
use globed.Common.Keys.{int_key}
use globed.Common.Maps.{Map, lookup, assign, erase, emplace, has_value}
use globed.Data.Types.Misc.{Point}
use globed.Data.Types.Game.{PlayerData, SpecificIconData, icon_type_value, copy_flags_from}
use globed.Game.PlayerStates.{
  VisualPlayerState, visual_of, FrameFlags, no_flags, frame_of_data, PlayerState, new_player,
}

-- The operations of floats; `less`, `less_equal` and `same` are the comparisons.
pub record Floats : Type 0 where
  pub sub : ℕ → ℕ → ℕ
  pub add : ℕ → ℕ → ℕ
  pub div : ℕ → ℕ → ℕ
  pub abs : ℕ → ℕ
  pub lerp : ℕ → ℕ → ℕ → ℕ
  pub lerp_point : Point → Point → ℕ → Point
  pub less : ℕ → ℕ → Bool
  pub less_equal : ℕ → ℕ → Bool
  pub same : ℕ → ℕ → Bool
  pub error_margin : ℕ

-- The bits of 33.0f and of 0.5f.
abbrev pub spider_distance : ℕ
spider_distance = 1107558400

abbrev half : ℕ
half = 1056964608

-- `realtime` is that of the settings; the other settings are not read.
pub record PlayerInterpolator : Type 0 where
  pub players : Map ℤ PlayerState
  pub realtime : Bool

unfoldable add_player : ℤ → PlayerInterpolator → PlayerInterpolator
unfolding emplace
add_player id p = record p { players = emplace id new_player p.players }

unfoldable erase_player : ℤ → PlayerInterpolator → PlayerInterpolator
unfolding erase
erase_player id p = record p { players = erase id p.players }

unfoldable has_player : ℤ → PlayerInterpolator → Bool
unfolding lookup
has_player id p = has_value (lookup id p.players)

module _ (f : Floats) where
  open f use {sub, add, div, abs, lerp, lerp_point, less, less_equal, same, error_margin}

  -- `util::math::equal`.
  unfoldable pub equal : ℕ → ℕ → Bool
  equal a b = less (abs (sub b a)) error_margin

  -- The flags that an update sets; the death is flagged from the second frame on.
  unfoldable pub flags_after : PlayerData → PlayerState → FrameFlags
  unfolding equal
  flags_after d s = record {
    pending_death =
        if not (equal s.last_death_timestamp d.last_death_timestamp) && ltb 1 (suc s.total_frames)
        then true
        else s.frame_flags.pending_death;
    pending_p1_jump = d.player1.did_just_jump;
    pending_p2_jump = d.player1.did_just_jump;
    pending_p1_teleport = d.player1.spider_teleport_data;
    pending_p2_teleport = d.player2.spider_teleport_data;
  }

  -- `updatePlayer`, on the player's state.
  unfoldable pub update_state : Bool → PlayerData → ℕ → PlayerState → PlayerState
  unfolding flags_after frame_of_data visual_of equal
  update_state realtime d counter s =
      let s' = record s {
        update_counter = counter;
        pending_real_frame = true;
        total_frames = suc s.total_frames;
        last_death_timestamp =
            if equal s.last_death_timestamp d.last_death_timestamp
            then s.last_death_timestamp
            else d.last_death_timestamp;
        frame_flags = flags_after d s;
      } in
      if realtime then record s' { interpolated_state = visual_of d } else record s' {
        older_frame = s.newer_frame;
        newer_frame = frame_of_data d;
        time_counter = s.newer_frame.timestamp;
      }

  abbrev updated :
      ℤ
      → (PlayerState → PlayerState)
      → PlayerInterpolator
      → Option PlayerState
      → Option PlayerInterpolator
  updated id g p none = none
  updated id g p (some s) = some (record p { players = assign id (g s) p.players })

  unfoldable update_player : ℤ → PlayerData → ℕ → PlayerInterpolator → Option PlayerInterpolator
  unfolding lookup assign update_state
  update_player id d counter p =
      updated id (update_state p.realtime d counter) p (lookup id p.players)

  -- `lerpSpecific`, `lerpPlayer`.
  unfoldable pub lerp_specific :
      SpecificIconData → SpecificIconData → SpecificIconData → ℕ → SpecificIconData
  unfolding copy_flags_from icon_type_value
  lerp_specific older newer out ratio = record (copy_flags_from older out) {
    position =
        if icon_type_value older.icon_type == 7
          && less_equal spider_distance (abs (sub older.position.y newer.position.y))
        then record { x = lerp older.position.x newer.position.x ratio; y = older.position.y }
        else lerp_point older.position newer.position ratio;
    rotation = lerp older.rotation newer.rotation ratio;
  }

  unfoldable pub lerp_player :
      VisualPlayerState → VisualPlayerState → VisualPlayerState → ℕ → VisualPlayerState
  unfolding lerp_specific
  lerp_player older newer out ratio = record {
    player1 = lerp_specific older.player1 newer.player1 out.player1 ratio;
    player2 = lerp_specific older.player2 newer.player2 out.player2 ratio;
    current_percentage = older.current_percentage;
    is_dead = older.is_dead;
    is_paused = older.is_paused;
    is_practicing = older.is_practicing;
    is_dual_mode = older.is_dual_mode;
    is_in_editor = older.is_in_editor;
    is_editor_building = older.is_editor_building;
  }

  -- `tick`, on the state of one player, where there is interpolation.
  unfoldable pub tick_state : ℕ → PlayerState → PlayerState
  unfolding lerp_player
  tick_state dt s =
      let delta = sub s.newer_frame.timestamp s.older_frame.timestamp in
      if ltb s.total_frames 2 || same delta 0 then s else record s {
        interpolated_state =
            lerp_player s.older_frame.visual s.newer_frame.visual s.interpolated_state
              (div (sub s.time_counter s.older_frame.timestamp) delta);
        time_counter = add s.time_counter dt;
      }

  unfoldable tick : ℕ → PlayerInterpolator → PlayerInterpolator
  unfolding tick_state
  tick dt p =
      if p.realtime then p else record p { players = map (λ q. (q.0, tick_state dt q.1)) p.players }

  -- `isPlayerStale`.
  unfoldable is_player_stale : ℤ → ℕ → PlayerInterpolator → Option Bool
  unfolding lookup
  is_player_stale id last p = elim (lookup id p.players) [
    | none ↦ none
    | some s ↦ some (not (same s.update_counter 0) && less half (abs (sub s.update_counter last)))
  ]

-- `swapFrameFlags`: the flags, and the state with none.
unfoldable pub swap_state : PlayerState → FrameFlags × PlayerState
swap_state s = (s.frame_flags, record s { frame_flags = no_flags })

unfoldable swap_frame_flags : ℤ → PlayerInterpolator → Option (FrameFlags × PlayerInterpolator)
unfolding lookup assign swap_state
swap_frame_flags id p = elim (lookup id p.players) [
  | none ↦ none
  | some s ↦ some ((swap_state s).0, record p { players = assign id (swap_state s).1 p.players })
]
