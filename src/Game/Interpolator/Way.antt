-- ===== src/Game/Interpolator/Way.antt =====
-- src/game/interpolator.cpp: the way of a player between the last two updates.
use globed.Common.{
  ℕ, suc, ◌≤◌, ◌≡◌, refl, ap, ◌∙◌, false, List, [], ◌∷◌, ◌++◌, All, arith, ltb, ◌||◌, ◌&&◌, ◌==◌,
  if◌then◌else◌, Bool-cases, inl, inr,
}
use globed.Data.Types.Misc.{Point}
use globed.Data.Types.Game.{PlayerData, SpecificIconData, icon_type_value, copy_flags_from}
use globed.Game.PlayerStates.{VisualPlayerState, LerpFrame, frame_of_data, visual_of, PlayerState}
use globed.Game.Interpolator.{
  Floats, spider_distance, update_state, tick_state, swap_state, lerp_player, lerp_specific,
}
use globed.Game.Interpolator.Frames.{Event, receives, ticks, swaps, IsQuiet, after, after-append}

module _ (f : Floats) where
  -- The time of the tick, after the ticks in a run of events.
  abbrev pub time_after : List Event → ℕ → ℕ
  time_after [] t = t
  time_after (receives d c ∷ es) t = time_after es t
  time_after (ticks dt ∷ es) t = time_after es (f.add t dt)
  time_after (swaps ∷ es) t = time_after es t

  -- Two states that the ticks move through the same frames.
  record IsAlong (s t : PlayerState) : Type 0 where
    older : t.older_frame ≡ s.older_frame
    newer : t.newer_frame ≡ s.newer_frame
    frames : t.total_frames ≡ s.total_frames

  tick-IsAlong : (dt : ℕ) (s : PlayerState) → IsAlong s (tick_state f dt s)
  unfolding tick_state
  tick-IsAlong dt s =
      elim (Bool-cases (
        ltb s.total_frames 2 || f.same (f.sub s.newer_frame.timestamp s.older_frame.timestamp) 0)) [
          | inl e ↦ rw (tick_state, e) record { older = refl; newer = refl; frames = refl }
          | inr e ↦ rw (tick_state, e) record { older = refl; newer = refl; frames = refl }
        ]

  quiet-IsAlong : (es : List Event) (s : PlayerState) → All IsQuiet es → IsAlong s (after f es s)
  unfolding swap_state
  quiet-IsAlong [] s q = record { older = refl; newer = refl; frames = refl }
  quiet-IsAlong (receives d c ∷ es) s q = absurd (ground (arith, q.0))
  quiet-IsAlong (ticks dt ∷ es) s q =
      let r = quiet-IsAlong es (tick_state f dt s) q.1 in
      let t = tick-IsAlong dt s in
      record { older = r.older ∙ t.older; newer = r.newer ∙ t.newer; frames = r.frames ∙ t.frames }
  quiet-IsAlong (swaps ∷ es) s q =
      let r = quiet-IsAlong es (swap_state s).1 q.1 in
      record { older = r.older; newer = r.newer; frames = r.frames }

  -- A player with two frames at different times.
  IsMoving : PlayerState → Type 0
  IsMoving s =
      (2 ≤ s.total_frames)
      × (f.same (f.sub s.newer_frame.timestamp s.older_frame.timestamp) 0 ≡ false)

  IsMoving-along : (s t : PlayerState) → IsAlong s t → IsMoving s → IsMoving t
  unfolding IsMoving
  IsMoving-along s t a m = rw (a.older, a.newer, a.frames) m

  moving_time :
      (es : List Event) (s : PlayerState)
      → All IsQuiet es
      → IsMoving s
      → (after f es s).time_counter ≡ time_after es s.time_counter
  unfolding swap_state tick_state IsMoving
  moving_time [] s q m = refl
  moving_time (receives d c ∷ es) s q m = absurd (ground (arith, q.0))
  moving_time (ticks dt ∷ es) s q m =
      let two : ltb s.total_frames 2 ≡ false = ground (arith, m.0) in
      moving_time es (tick_state f dt s) q.1 (IsMoving-along s _ (tick-IsAlong dt s) m)
      ∙ ap (time_after es) (rw (tick_state, two, m.1) refl)
  moving_time (swaps ∷ es) s q m = moving_time es (swap_state s).1 q.1 m

  -- Where an icon is at some part of the way from one update to the next: a spider that is far above
  -- or below its next place stays at its height, and anything else moves on the line.
  place : SpecificIconData → SpecificIconData → ℕ → Point
  place a b ratio =
      if icon_type_value a.icon_type == 7
        && f.less_equal spider_distance (f.abs (f.sub a.position.y b.position.y))
      then record { x = f.lerp a.position.x b.position.x ratio; y = a.position.y }
      else f.lerp_point a.position b.position ratio

  -- A player who is shown at some part of the way from one update to the next.
  pub record IsOnTheWay (d e : PlayerData) (ratio : ℕ) (v : VisualPlayerState) : Type 0 where
    place1 : v.player1.position ≡ place d.player1 e.player1 ratio
    place2 : v.player2.position ≡ place d.player2 e.player2 ratio
    rotation1 : v.player1.rotation ≡ f.lerp d.player1.rotation e.player1.rotation ratio
    rotation2 : v.player2.rotation ≡ f.lerp d.player2.rotation e.player2.rotation ratio
    type1 : v.player1.icon_type ≡ d.player1.icon_type
    type2 : v.player2.icon_type ≡ d.player2.icon_type
    visible1 : v.player1.is_visible ≡ d.player1.is_visible
    visible2 : v.player2.is_visible ≡ d.player2.is_visible
    percentage : v.current_percentage ≡ d.current_percentage
    dead : v.is_dead ≡ d.is_dead

  shown-IsOnTheWay :
      (d e : PlayerData) (dt : ℕ) (s : PlayerState)
      → s.older_frame ≡ frame_of_data d
      → s.newer_frame ≡ frame_of_data e
      → IsMoving s
      → IsOnTheWay d e
          (f.div (f.sub s.time_counter d.timestamp) (f.sub e.timestamp d.timestamp))
          (tick_state f dt s).interpolated_state
  unfolding IsMoving tick_state lerp_player lerp_specific copy_flags_from frame_of_data visual_of
      place
  shown-IsOnTheWay d e dt s o n m =
      let two : ltb s.total_frames 2 ≡ false = ground (arith, m.0) in
      rw (tick_state, two, m.1, o, n)
        record {
          place1 = refl;
          place2 = refl;
          rotation1 = refl;
          rotation2 = refl;
          type1 = refl;
          type2 = refl;
          visible1 = refl;
          visible2 = refl;
          percentage = refl;
          dead = refl;
        }

  -- Whatever came before, and whatever ticks and swaps of the flags come between and after the last
  -- two updates, whose timestamps differ, the next tick shows a player who is interpolated on the way
  -- from the one update to the other, as far as the ticks since the second have come: they count from
  -- the timestamp of the first.
  pub last_frames_lem :
      (front mid back : List Event) (d e : PlayerData) (c k dt : ℕ) (s : PlayerState)
      → All IsQuiet mid
      → All IsQuiet back
      → f.same (f.sub e.timestamp d.timestamp) 0 ≡ false
      → IsOnTheWay d e
          (f.div (f.sub (time_after back d.timestamp) d.timestamp) (f.sub e.timestamp d.timestamp))
          (tick_state f dt (
            after f
              (front ++ (receives d c ∷ (mid ++ (receives e k ∷ back))))
              s)).interpolated_state
  unfolding update_state frame_of_data IsMoving
  last_frames_lem front mid back d e c k dt s qm qb h =
      let a = after f front s in
      let u = update_state f false d c a in
      let m = after f mid u in
      let v = update_state f false e k m in
      let split : after f (front ++ (receives d c ∷ (mid ++ (receives e k ∷ back)))) s
          ≡ after f back v =
        after-append f front (receives d c ∷ (mid ++ (receives e k ∷ back))) s
        ∙ after-append f mid (receives e k ∷ back) u in
      let r = quiet-IsAlong back v qb in
      let t = quiet-IsAlong mid u qm in
      let stamp : m.newer_frame.timestamp ≡ d.timestamp =
        ap (λ (l : LerpFrame). l.timestamp) t.newer in
      let frames : m.total_frames ≡ suc a.total_frames = t.frames in
      let moving : IsMoving v = (omega (arith, frames), rw stamp h) in
      let time : (after f back v).time_counter ≡ time_after back d.timestamp =
        moving_time back v qb moving ∙ ap (time_after back) stamp in
      rw (split, ← time)
        (shown-IsOnTheWay d e dt (after f back v) (r.older ∙ t.newer) r.newer
          (IsMoving-along v (after f back v) r moving))
