-- ===== src/Managers/Profiles.antt =====
-- src/managers/profile_cache.cpp: the profiles of players, and the user's own.
use globed.Common.{
  ℕ, ◌≡◌, refl, Bool, true, false, not, ◌&&◌, ◌||◌, List, Option, ◌==◌, Bool-cases, inl, inr,
  if◌then◌else◌, arith,
}
use globed.Common.Int.{ℤ}
use globed.Common.Keys.{int_key, same_ℤ, same_text, text_key}
use globed.Common.Maps.{Map, lookup, assign, same_refl}
use globed.Data.Types.Gd.{PlayerIconData, PlayerAccountData, SpecialUserData}

pub record ProfileCache : Type 0 where
  pub cache : Map ℤ PlayerAccountData
  own_data : PlayerAccountData
  own_special_data : SpecialUserData
  pending_changes : Bool

unfoldable insert_profile : PlayerAccountData → ProfileCache → ProfileCache
unfolding assign
insert_profile d p = record p { cache = assign d.account_id d p.cache }

unfoldable get_profile : ℤ → ProfileCache → Option PlayerAccountData
unfolding lookup
get_profile id p = lookup id p.cache

-- `operator==` of the icons, member by member.
unfoldable same_icons : PlayerIconData → PlayerIconData → Bool
same_icons a b =
    (same_ℤ a.cube b.cube
      && (same_ℤ a.ship b.ship
          && (same_ℤ a.ball b.ball && (same_ℤ a.ufo b.ufo && same_ℤ a.wave b.wave))))
    && ((same_ℤ a.robot b.robot
          && (same_ℤ a.spider b.spider && (same_ℤ a.swing b.swing && same_ℤ a.jetpack b.jetpack)))
        && (((a.death_effect == b.death_effect)
              && ((a.color1 == b.color1) && (a.color2 == b.color2)))
            && ((a.glow_color == b.glow_color)
                && ((a.streak == b.streak) && (a.ship_streak == b.ship_streak)))))

-- `setOwnData`, of the game's account.
unfoldable set_own_data : ℤ → List ℕ → PlayerIconData → ProfileCache → ProfileCache
set_own_data account_id name icons p =
    let d = p.own_data in
    let id_differs = not (same_ℤ d.account_id account_id) in
    let name_differs = not (same_text d.name name) in
    let icons_differ = not (same_icons d.icons icons) in
    record p {
      own_data = record d {
        account_id = if id_differs then account_id else d.account_id;
        name = if name_differs then name else d.name;
        icons = if icons_differ then icons else d.icons;
        special_user_data = p.own_special_data;
      };
      pending_changes = id_differs || (name_differs || icons_differ);
    }

unfoldable set_own_special_data : SpecialUserData → ProfileCache → ProfileCache
set_own_special_data d p = record p {
  own_special_data = d;
  own_data = record p.own_data { special_user_data = d };
}

ℤ_same : (a : ℤ) → same_ℤ a a ≡ true
ℤ_same a = same_refl a

text_same : (t : List ℕ) → same_text t t ≡ true
text_same t = same_refl t

icons_same : (a : PlayerIconData) → same_icons a a ≡ true
unfolding same_icons
icons_same a =
    rw
      (
        ℤ_same a.cube,
        ℤ_same a.ship,
        ℤ_same a.ball,
        ℤ_same a.ufo,
        ℤ_same a.wave,
        ℤ_same a.robot,
        ℤ_same a.spider,
        ℤ_same a.swing,
        ℤ_same a.jetpack,
      )
      (ground arith)

chosen {ℓ} :
    {A : Type ℓ}
    → (same : A → A → Bool) → ((x : A) → same x x ≡ true)
    → (d a : A) → same (if not (same d a) then a else d) a ≡ true
chosen same r d a = elim (Bool-cases (same d a)) [ inl e ↦ rw e e | inr e ↦ rw e (r a) ]

-- Setting the same data a second time says that nothing is pending, also where the first call had
-- changed the data: whoever asks only after both calls never learns of the change.
pending_lost_lem :
    (account_id : ℤ) (name : List ℕ) (icons : PlayerIconData) (p : ProfileCache)
    → (set_own_data account_id name icons (set_own_data account_id name icons p)).pending_changes
      ≡ false
unfolding set_own_data
pending_lost_lem account_id name icons p =
    rw
      (
        chosen same_ℤ ℤ_same p.own_data.account_id account_id,
        chosen same_text text_same p.own_data.name name,
        chosen same_icons icons_same p.own_data.icons icons,
      )
      refl
