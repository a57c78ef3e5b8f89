-- ===== src/Game/Interpolator/Flags.antt =====
-- src/game/interpolator.cpp: the flags that an update leaves for the next frame.
use globed.Common.{
  ℕ, ◌≤◌, ◌≡◌, refl, ap, ◌∙◌, true, false, Bool, List, [], ◌∷◌, All, arith, ltb, ◌||◌, Bool-cases,
  inl, inr,
}
use globed.Data.Types.Game.{PlayerData}
use globed.Game.PlayerStates.{PlayerState, no_flags}
use globed.Game.Interpolator.{Floats, equal, flags_after, update_state, tick_state, swap_state}
use globed.Game.Interpolator.Frames.{Event, receives, ticks, swaps, IsQuiet, after}

abbrev is_swap : Event → Bool
is_swap (receives d c) = false
is_swap (ticks dt) = false
is_swap swaps = true

module _ (f : Floats) where
  tick-flags : (dt : ℕ) (s : PlayerState) → (tick_state f dt s).frame_flags ≡ s.frame_flags
  unfolding tick_state
  tick-flags dt s =
      elim (Bool-cases (
        ltb s.total_frames 2 || f.same (f.sub s.newer_frame.timestamp s.older_frame.timestamp) 0)) [
          | inl e ↦ rw (tick_state, e) refl
          | inr e ↦ rw (tick_state, e) refl
        ]

  quiet-flags :
      (es : List Event) (s : PlayerState)
      → All IsQuiet es
      → s.frame_flags ≡ no_flags
      → (after f es s).frame_flags ≡ no_flags
  unfolding swap_state
  quiet-flags [] s q h = h
  quiet-flags (receives d c ∷ es) s q h = absurd (ground (arith, q.0))
  quiet-flags (ticks dt ∷ es) s q h = quiet-flags es (tick_state f dt s) q.1 (tick-flags dt s ∙ h)
  quiet-flags (swaps ∷ es) s q h = quiet-flags es (swap_state s).1 q.1 refl

  update-death :
      (d : PlayerData) (c : ℕ) (s : PlayerState)
      → s.frame_flags.pending_death ≡ true
      → (update_state f false d c s).frame_flags.pending_death ≡ true
  unfolding update_state flags_after
  update-death d c s h = ground (arith, h)

  death-kept :
      (es : List Event) (s : PlayerState)
      → All (λ e. is_swap e ≡ false) es
      → s.frame_flags.pending_death ≡ true
      → (after f es s).frame_flags.pending_death ≡ true
  death-kept [] s q h = h
  death-kept (receives d c ∷ es) s q h =
      death-kept es (update_state f false d c s) q.1 (update-death d c s h)
  death-kept (ticks dt ∷ es) s q h =
      death-kept es (tick_state f dt s) q.1 (ap (λ x. x.pending_death) (tick-flags dt s) ∙ h)
  death-kept (swaps ∷ es) s q h = absurd (ground (arith, q.0))

  -- A new death of a player who had an update before is reported by the next swap of the flags,
  -- however many updates and ticks come in between, and reported once: swaps after that one report
  -- nothing of any kind until there is another update.
  pub death_lem :
      (d : PlayerData) (c : ℕ) (es back : List Event) (s : PlayerState)
      → 1 ≤ s.total_frames
      → equal f s.last_death_timestamp d.last_death_timestamp ≡ false
      → All (λ e. is_swap e ≡ false) es
      → All IsQuiet back
      → ((swap_state (after f es (update_state f false d c s))).0.pending_death ≡ true)
        × ((swap_state (after f back (swap_state (after f es (update_state f false d c s))).1)).0
            ≡ no_flags)
  unfolding swap_state update_state flags_after
  death_lem d c es back s n h qe qb = (
    death-kept es (update_state f false d c s) qe (ground (arith, h)),
    quiet-flags back (swap_state (after f es (update_state f false d c s))).1 qb refl,
  )
