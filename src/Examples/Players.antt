-- ===== src/Examples/Players.antt =====
-- Runs of the interpolation of players.
use globed.Common.{
  ℕ, ◌-◌, ◌+◌, ◌≡◌, ◌≤◌, refl, true, false, [], ◌∷◌, ◌++◌, arith, ltb, leb, ◌==◌, if◌then◌else◌,
}
use globed.Data.Types.Game.{PlayerData}
use globed.Game.PlayerStates.{PlayerState, new_player, no_icon, frame_of_data, no_flags}
use globed.Game.Interpolator.{Floats, equal, update_state, tick_state, swap_state}
use globed.Game.Interpolator.Frames.{
  receives, ticks, swaps, after, IsExact, IsBehind, first_tick_lem,
}
use globed.Game.Interpolator.Way.{IsOnTheWay, last_frames_lem}
use globed.Game.Interpolator.Flags.{death_lem}

-- Whole numbers for floats; a ratio of 0 stands for the start, any other for the end.
abbrev whole_floats : Floats
whole_floats = record {
  sub = λ a b. a - b;
  add = λ a b. a + b;
  div = λ a b. a;
  abs = λ a. a;
  lerp = λ a b r. if r == 0 then a else b;
  lerp_point = λ a b r. if r == 0 then a else b;
  less = λ a b. ltb a b;
  less_equal = λ a b. leb a b;
  same = λ a b. a == b;
  error_margin = 1;
}

abbrev exact_floats : IsExact whole_floats
exact_floats = record {
  IsFinite = λ a. Unit;
  lerp_start = λ a b t u fa fb ft fu h. ground arith;
  lerp_point_start = λ a b t u fs ft fu h. ground arith;
}

abbrev data_at : ℕ → ℕ → PlayerData
data_at time death = record {
  timestamp = time;
  player1 = no_icon;
  player2 = no_icon;
  last_death_timestamp = death;
  current_percentage = time;
  is_dead = false;
  is_paused = false;
  is_practicing = false;
  is_dual_mode = false;
  is_in_editor = false;
  is_editor_building = false;
}

last_frames_lem_example :
    IsOnTheWay whole_floats
      (data_at 3 0)
      (data_at 5 0)
      ((3 + 1) - 3)
      (tick_state whole_floats 1 (
        after whole_floats
          ((swaps ∷ [])
            ++ (receives (data_at 3 0) 1
                ∷ ((ticks 1 ∷ []) ++ (receives (data_at 5 0) 2 ∷ (ticks 1 ∷ [])))))
          new_player)).interpolated_state
last_frames_lem_example =
    last_frames_lem whole_floats (swaps ∷ []) (ticks 1 ∷ []) (ticks 1 ∷ []) (data_at 3 0)
      (data_at 5 0) 1 2 1 new_player (refl, tt) (refl, tt) refl

abbrev seen : PlayerState
seen = update_state whole_floats false (data_at 3 0) 1 new_player

seen_once : 1 ≤ seen.total_frames
unfolding update_state
seen_once = omega arith

first_tick_lem_example :
    IsBehind whole_floats exact_floats seen.newer_frame.visual
      (tick_state whole_floats 1
        (update_state whole_floats false (data_at 5 0) 2 seen)).interpolated_state
unfolding frame_of_data update_state
first_tick_lem_example =
    first_tick_lem whole_floats exact_floats (data_at 5 0) 2 1 seen seen_once
      (tt, (tt, tt, tt), (tt, tt, tt)) (tt, (tt, tt, tt), (tt, tt, tt)) refl

death_lem_example :
    ((swap_state (
        after whole_floats
          (ticks 1 ∷ [])
          (update_state whole_floats false (data_at 5 9) 2 seen))).0.pending_death
      ≡ true)
    × ((swap_state (
          after whole_floats
            (ticks 1 ∷ [])
            (swap_state (
              after whole_floats
                (ticks 1 ∷ [])
                (update_state whole_floats false (data_at 5 9) 2 seen))).1)).0
        ≡ no_flags)
unfolding equal update_state
death_lem_example =
    death_lem whole_floats (data_at 5 9) 2 (ticks 1 ∷ []) (ticks 1 ∷ []) seen seen_once refl
      (refl, tt) (refl, tt)
