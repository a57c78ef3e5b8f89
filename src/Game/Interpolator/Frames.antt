-- ===== src/Game/Interpolator/Frames.antt =====
-- src/game/interpolator.cpp: what happens to a player's state, and the first tick.
use globed.Common.{
  ℕ, suc, ◌≤◌, ◌≡◌, refl, ap, true, false, Bool, List, [], ◌∷◌, ◌++◌, arith, ltb, ◌&&◌, ◌==◌,
  Bool-cases, inl, inr,
}
use globed.Data.Types.Misc.{Point}
use globed.Data.Types.Game.{PlayerData, SpecificIconData, icon_type_value, copy_flags_from}
use globed.Game.PlayerStates.{VisualPlayerState, LerpFrame, frame_of_data, PlayerState}
use globed.Game.Interpolator.{
  Floats, spider_distance, update_state, tick_state, swap_state, lerp_player, lerp_specific,
}

-- What happens to a player's state.
pub data Event : Type 0 where
  receives : PlayerData → ℕ → Event
  ticks : ℕ → Event
  swaps : Event

abbrev is_update : Event → Bool
is_update (receives d c) = true
is_update (ticks dt) = false
is_update swaps = false

abbrev pub IsQuiet : Event → Type 0
IsQuiet e = is_update e ≡ false

module _ (f : Floats) where
  abbrev step : Event → PlayerState → PlayerState
  step (receives d c) s = update_state f false d c s
  step (ticks dt) s = tick_state f dt s
  step swaps s = (swap_state s).1

  abbrev pub after : List Event → PlayerState → PlayerState
  after [] s = s
  after (e ∷ es) s = after es (step e s)

  pub after-append :
      (es fs : List Event) (s : PlayerState) → after (es ++ fs) s ≡ after fs (after es s)
  after-append [] fs s = refl
  after-append (e ∷ es) fs s = after-append es fs (step e s)

-- What the arithmetic of floats keeps to: a time that has not moved, over a duration that is not
-- zero, is a ratio at which `std::lerp` and the interpolation of points, of finite values, yield
-- their first value.
pub record IsExact (f : Floats) : Type 1 where
  pub IsFinite : ℕ → Type 0
  pub lerp_start :
      (a b t u : ℕ)
      → IsFinite a
      → IsFinite b
      → IsFinite t
      → IsFinite u
      → f.same (f.sub u t) 0 ≡ false
      → f.lerp a b (f.div (f.sub t t) (f.sub u t)) ≡ a
  pub lerp_point_start :
      (a b : Point) (t u : ℕ)
      → IsFinite a.x × IsFinite a.y × IsFinite b.x × IsFinite b.y
      → IsFinite t
      → IsFinite u
      → f.same (f.sub u t) 0 ≡ false
      → f.lerp_point a b (f.div (f.sub t t) (f.sub u t)) ≡ a

pub record IsShown (a b : SpecificIconData) : Type 0 where
  pub position : b.position ≡ a.position
  pub rotation : b.rotation ≡ a.rotation
  pub icon_type : b.icon_type ≡ a.icon_type
  visible : b.is_visible ≡ a.is_visible
  upside_down : b.is_upside_down ≡ a.is_upside_down

module _ (f : Floats) (x : IsExact f) where
  abbrev IsFiniteIcon : SpecificIconData → Type 0
  IsFiniteIcon a = x.IsFinite a.position.x × x.IsFinite a.position.y × x.IsFinite a.rotation

  icon_start :
      (a b o : SpecificIconData) (t u : ℕ)
      → IsFiniteIcon a
      → IsFiniteIcon b
      → x.IsFinite t
      → x.IsFinite u
      → f.same (f.sub u t) 0 ≡ false
      → IsShown a (lerp_specific f a b o (f.div (f.sub t t) (f.sub u t)))
  unfolding lerp_specific copy_flags_from
  icon_start a b o t u fa fb ft fu h =
      let px = x.lerp_start a.position.x b.position.x t u fa.0 fb.0 ft fu h in
      let p = x.lerp_point_start a.position b.position t u (fa.0, fa.1, fb.0, fb.1) ft fu h in
      record {
        position =
            elim (Bool-cases (
              icon_type_value a.icon_type == 7
              && f.less_equal spider_distance (f.abs (f.sub a.position.y b.position.y)))) [
                | inl e ↦ rw e (ap (λ (n : ℕ). record { x = n; y = a.position.y }) px)
                | inr e ↦ rw e p
              ];
        rotation = x.lerp_start a.rotation b.rotation t u fa.2 fb.2 ft fu h;
        icon_type = refl;
        visible = refl;
        upside_down = refl;
      }

  pub record IsBehind (v w : VisualPlayerState) : Type 0 where
    pub player1 : IsShown v.player1 w.player1
    pub player2 : IsShown v.player2 w.player2
    pub current_percentage : w.current_percentage ≡ v.current_percentage
    pub is_dead : w.is_dead ≡ v.is_dead

  abbrev IsFiniteFrame : LerpFrame → Type 0
  IsFiniteFrame l =
      x.IsFinite l.timestamp × IsFiniteIcon l.visual.player1 × IsFiniteIcon l.visual.player2

  -- The first tick after an update shows a player, who had an update before and whose timestamp has
  -- changed since, exactly where that earlier update had them: what is shown is one update behind.
  -- The numbers of both frames are finite, and the arithmetic keeps to `IsExact`.
  pub first_tick_lem :
      (d : PlayerData) (c dt : ℕ) (s : PlayerState)
      → 1 ≤ s.total_frames
      → IsFiniteFrame s.newer_frame
      → IsFiniteFrame (frame_of_data d)
      → f.same (f.sub d.timestamp s.newer_frame.timestamp) 0 ≡ false
      → IsBehind s.newer_frame.visual
          (tick_state f dt (update_state f false d c s)).interpolated_state
  unfolding update_state frame_of_data tick_state lerp_player
  first_tick_lem d c dt s n fa fb h =
      let one : ltb (suc s.total_frames) 2 ≡ false = ground arith in
      rw (tick_state, one, h)
        record {
          player1 =
              icon_start s.newer_frame.visual.player1 d.player1 s.interpolated_state.player1 _ _
                fa.1 fb.1 fa.0 fb.0 h;
          player2 =
              icon_start s.newer_frame.visual.player2 d.player2 s.interpolated_state.player2 _ _
                fa.2 fb.2 fa.0 fb.0 h;
          current_percentage = refl;
          is_dead = refl;
        }
