-- ===== src/Managers/Roles/Priority.antt =====
-- src/managers/role.cpp: the priority that `compute` arrives at.
use globed.Common.{
  ℕ, ◌≡◌, refl, ◌∙◌, true, false, ◌⊎◌, inl, inr, List, [], ◌∷◌, Option, none, some, All, arith,
  Bool-cases,
}
use globed.Common.Int.{ℤ, ltb_ℤ}
use globed.Data.Types.Misc.{Color3}
use globed.Data.Types.User.{ServerRole, GameServerRole, ComputedRole}
use globed.Util.Format.Find.{contains}
use globed.Managers.Roles.{
  find_role, merge_role, merge_found, compute_from, compute, no_role, int_min,
}

module _ (from_hex : List ℕ → Option Color3) where
  -- No higher than the priority p.
  abbrev pub IsAtMost : ℤ → Option ServerRole → Type 0
  IsAtMost p none = Unit
  IsAtMost p (some r) = ltb_ℤ p r.priority ≡ false

  raised :
      (o : Option ServerRole) (c : ComputedRole)
      → IsAtMost (merge_found from_hex o c).priority o
        × (ltb_ℤ (merge_found from_hex o c).priority c.priority ≡ false)
  unfolding merge_found
  raised none c = (tt, ground arith)
  raised (some r) c = (ground arith, ground arith)

  IsAtMost-trans :
      (p q : ℤ) (o : Option ServerRole) → ltb_ℤ q p ≡ false → IsAtMost p o → IsAtMost q o
  IsAtMost-trans p q none h k = tt
  IsAtMost-trans p q (some r) h k = ground arith

  from_start :
      (all : List GameServerRole) (ids : List ℕ) (c : ComputedRole)
      → (ltb_ℤ (compute_from from_hex all ids c).priority c.priority ≡ false)
        × All
            (λ (id : ℕ). IsAtMost (compute_from from_hex all ids c).priority (find_role id all))
            ids
  unfolding compute_from
  from_start all [] c = (ground arith, tt)
  from_start all (id ∷ ids) c =
      let c' = merge_found from_hex (find_role id all) c in
      let (h, t) = from_start all ids c' in
      let (r, k) = raised (find_role id all) c in
      (
        ground arith,
        (
          IsAtMost-trans c'.priority (compute_from from_hex all ids c').priority (find_role id all)
              h r,
          t,
        ),
      )

  -- The priority p is that of a role among the numbers, or the one at the start.
  abbrev pub IsAttained : List GameServerRole → List ℕ → ℤ → ℤ → Type 0
  IsAttained all ids start p =
      (p ≡ start)
      ⊎ ((id : ℕ) × (r : ServerRole) × (contains ids id ≡ true)
          × (find_role id all ≡ some r)
          × (p ≡ r.priority))

  merged :
      (o : Option ServerRole) (c : ComputedRole)
      → ((merge_found from_hex o c).priority ≡ c.priority)
        ⊎ ((r : ServerRole) × (o ≡ some r) × ((merge_found from_hex o c).priority ≡ r.priority))
  unfolding merge_found merge_role
  merged none c = inl refl
  merged (some r) c = elim (Bool-cases (ltb_ℤ c.priority r.priority)) [
    | inl e ↦ inr (r, refl, rw (merge_found, e) refl)
    | inr e ↦ inl (rw (merge_found, e) refl)
  ]

  attained :
      (all : List GameServerRole) (ids : List ℕ) (c : ComputedRole)
      → IsAttained all ids c.priority (compute_from from_hex all ids c).priority
  unfolding compute_from
  attained all [] c = inl refl
  attained all (id ∷ ids) c = elim (attained all ids (merge_found from_hex (find_role id all) c)) [
    | inr (n, r, m, f, e) ↦ inr (n, r, ground (arith, contains), f, e)
    | inl e ↦ elim (merged (find_role id all) c) [
      | inl g ↦ inl (e ∙ g)
      | inr (r, f, g) ↦ inr (id, r, ground (arith, contains), f, e ∙ g)
    ]
  ]

  -- The computed priority is the highest among the roles of the user that the server lists, and
  -- `INT_MIN` where there is none: none of them is above it, and it is that of one of them, or
  -- `INT_MIN`. Numbers that the server does not list are passed over.
  pub compute-priority :
      (all : List GameServerRole) (ids : List ℕ)
      → All (λ (id : ℕ). IsAtMost (compute from_hex all ids).priority (find_role id all)) ids
        × IsAttained all ids int_min (compute from_hex all ids).priority
  unfolding compute
  compute-priority all ids = ((from_start all ids no_role).1, attained all ids no_role)
