-- ===== src/Common/Maps.antt =====
-- `std::unordered_map<K, V>`: a list of keys and values, each key once, in the order in which an
-- iteration meets them.
use mathlib.Core.Option.{some-injective}
use globed.Common.{
  ◌+◌, ◌≤◌, ◌≡◌, refl, ap, ◌∙◌, sym, Bool, true, false, Option, none, some, List, [], ◌∷◌, arith,
  if◌then◌else◌, Bool-cases, inl, inr, length, All,
}
use globed.Common.Keys.{Key}

abbrev pub Map {ℓ κ} : Type ℓ → Type κ → Type (ℓ ⊔ κ)
Map K V = List (K × V)

abbrev pub has_value {ℓ} : {A : Type ℓ} → Option A → Bool
has_value none = false
has_value (some a) = true

module _ {ℓ} {K : Type ℓ} ⦃e : Key K⦄ where
  pub same_refl : (k : K) → e.same k k ≡ true
  same_refl k = (e.same_iff k k).1 refl

  same_moved : (i k j : K) → e.same i k ≡ true → e.same i j ≡ e.same k j
  same_moved i k j h = ap (λ x. e.same x j) ((e.same_iff i k).0 h)

  same_shared : (i k j : K) → e.same i j ≡ true → e.same k j ≡ true → e.same i k ≡ true
  same_shared i k j h g = (e.same_iff i k).1 ((e.same_iff i j).0 h ∙ sym ((e.same_iff k j).0 g))

module _ {ℓ κ} {K : Type ℓ} {V : Type κ} ⦃e : Key K⦄ where
  -- `at`, and `contains`.
  unfoldable pub lookup : K → Map K V → Option V
  lookup k [] = none
  lookup k ((j, v) ∷ m) = let rest = lookup k m in if e.same j k then some v else rest

  -- `m[k] = v`.
  unfoldable pub assign : K → V → Map K V → Map K V
  assign k v [] = (k, v) ∷ []
  assign k v ((j, w) ∷ m) =
      let rest = assign k v m in if e.same j k then (k, v) ∷ m else (j, w) ∷ rest

  unfoldable pub erase : K → Map K V → Map K V
  erase k [] = []
  erase k ((j, w) ∷ m) = let rest = erase k m in if e.same j k then rest else (j, w) ∷ rest

  -- `emplace` leaves a key that is there as it is.
  unfoldable pub emplace : K → V → Map K V → Map K V
  unfolding lookup
  emplace k v m = if has_value (lookup k m) then m else (k, v) ∷ m

  pub lookup-assign :
      (k j : K) (v : V) (m : Map K V)
      → lookup j (assign k v m) ≡ (if e.same k j then some v else lookup j m)
  unfolding lookup assign
  lookup-assign k j v [] = refl
  lookup-assign k j v ((i, w) ∷ m) = elim (Bool-cases (e.same i k)) [
    | inl t ↦ rw t (ground (arith, lookup-assign k j v m, same_moved i k j t))
    | inr t ↦ rw t (ground (arith, lookup-assign k j v m, same_shared i k j))
  ]

  pub lookup-erase :
      (k j : K) (m : Map K V) → lookup j (erase k m) ≡ (if e.same k j then none else lookup j m)
  unfolding lookup erase
  lookup-erase k j [] = ground arith
  lookup-erase k j ((i, w) ∷ m) = elim (Bool-cases (e.same i k)) [
    | inl t ↦ rw t (ground (arith, lookup-erase k j m, same_moved i k j t))
    | inr t ↦ rw t (ground (arith, lookup-erase k j m, same_shared i k j))
  ]

  pub length-assign : (k : K) (v : V) (m : Map K V) → length (assign k v m) ≤ length m + 1
  unfolding assign
  length-assign k v [] = omega arith
  length-assign k v ((j, w) ∷ m) = ground (arith, length-assign k v m)

  pub length-erase : (k : K) (m : Map K V) → length (erase k m) ≤ length m
  unfolding erase
  length-erase k [] = omega arith
  length-erase k ((j, w) ∷ m) = ground (arith, length-erase k m)

  module _ {ι} (P : K × V → Type ι) where
    pub All-assign : (k : K) (v : V) (m : Map K V) → P (k, v) → All P m → All P (assign k v m)
    unfolding assign
    All-assign k v [] p h = (p, tt)
    All-assign k v ((j, w) ∷ m) p h = elim (Bool-cases (e.same j k)) [
      | inl t ↦ rw (assign, t) (p, h.1)
      | inr t ↦ rw (assign, t) (h.0, All-assign k v m p h.1)
    ]

    pub All-erase : (k : K) (m : Map K V) → All P m → All P (erase k m)
    unfolding erase
    All-erase k [] h = tt
    All-erase k ((j, w) ∷ m) h = elim (Bool-cases (e.same j k)) [
      | inl t ↦ rw (erase, t) (All-erase k m h.1)
      | inr t ↦ rw (erase, t) (h.0, All-erase k m h.1)
    ]

    -- What holds of every entry holds of the one that is found.
    pub All-lookup : (k : K) (m : Map K V) (v : V) → All P m → lookup k m ≡ some v → P (k, v)
    unfolding lookup
    All-lookup k [] v h f = absurd (ground arith)
    All-lookup k ((j, w) ∷ m) v h f = elim (Bool-cases (e.same j k)) [
      | inl t ↦
          let here : lookup k ((j, w) ∷ m) ≡ some w = rw (lookup, t) refl in
          let jk = (e.same_iff j k).0 t in
          let wv = some-injective w v (sym here ∙ f) in rw (← jk, ← wv) h.0
      | inr t ↦
          let there : lookup k ((j, w) ∷ m) ≡ lookup k m = rw (lookup, t) refl in
          All-lookup k m v h.1 (sym there ∙ f)
    ]

module _ {ℓ κ} {K : Type ℓ} {V : Type κ} ⦃e : Key K⦄ where
  pub lookup-emplace :
      (k : K) (v : V) (m : Map K V)
      → lookup k (emplace k v m) ≡ (if has_value (lookup k m) then lookup k m else some v)
  unfolding emplace lookup
  lookup-emplace k v m = elim (Bool-cases (has_value (lookup k m))) [
    | inl t ↦ rw (emplace, t) refl
    | inr t ↦ rw (emplace, t, lookup, same_refl k) refl
  ]
