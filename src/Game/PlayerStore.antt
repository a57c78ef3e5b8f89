-- ===== src/Game/PlayerStore.antt =====
-- src/game/player_store.cpp: a `std::unordered_map` is a function from ids to entries.
use globed.Common.{
  ℕ, ◌≡◌, ap, Bool, true, false, not, ◌&&◌, Option, none, some, if◌then◌else◌, arith,
}
use globed.Common.Int.{ℤ, ltb_ℤ}

pub record Entry : Type 0 where
  pub attempts : ℤ
  pub local_best : ℕ

abbrev Entries : Type 0
Entries = ℤ → Option Entry

abbrev same_id : ℤ → ℤ → Bool
same_id x y = not (ltb_ℤ x y) && not (ltb_ℤ y x)

-- `insertOrUpdate` and `removePlayer`.
unfoldable pub insert_or_update : ℤ → ℤ → ℕ → Entries → Entries
insert_or_update id attempts local_best s k =
    if same_id k id then some (record { attempts = attempts; local_best = local_best }) else s k

unfoldable pub remove_player : ℤ → Entries → Entries
remove_player id s k = if same_id k id then none else s k

-- `_data.at` throws where there is no entry.
pub data Got : Type 0 where
  got : Option Entry → Got
  threw : Got

unfoldable at_entry : Option Entry → Got
at_entry none = threw
at_entry (some e) = got (some e)

unfoldable has_entry : Option Entry → Bool
has_entry none = false
has_entry (some e) = true

-- `get`.
unfoldable pub get : ℤ → Entries → Got
unfolding at_entry has_entry
get id s = if has_entry (s id) then got none else at_entry (s id)

same_id_refl : (x : ℤ) → same_id x x ≡ true
same_id_refl x = ground arith

-- `get` finds nothing for a player that has just been stored, and throws for one that has just been
-- removed, whatever else is stored.
pub get_lem :
    (id attempts : ℤ) (local_best : ℕ) (s : Entries)
    → (get id (insert_or_update id attempts local_best s) ≡ got none)
      × (get id (remove_player id s) ≡ threw)
unfolding get insert_or_update remove_player at_entry has_entry
get_lem id attempts local_best s =
    let entry = some (record { attempts = attempts; local_best = local_best }) in
    (
      ap
          (λ t.
            if has_entry (if t then entry else s id)
            then got none
            else at_entry (if t then entry else s id))
          (same_id_refl id),
      ap
          (λ t.
            if has_entry (if t then none else s id)
            then got none
            else at_entry (if t then none else s id))
          (same_id_refl id),
    )
