-- ===== src/Managers/BlockList/Sets.antt =====
-- src/managers/block_list.cpp, `blacklist` and `whitelist`: who is on which list.
use globed.Common.{
  ◌≡◌, refl, sym, ap, ◌∙◌, Bool, true, false, not, ◌&&◌, ◌||◌, List, [], ◌∷◌, arith, if◌then◌else◌,
  Bool-cases, inl, inr,
}
use globed.Common.Int.{ℤ, ltb_ℤ}
use globed.Managers.BlockList.{
  BlockList, eq_ℤ, contains, insert, erase, insert_all, save, blacklist, whitelist,
  is_explicitly_blocked, is_explicitly_allowed,
}

eq_ℤ-trans : (x y z : ℤ) → ltb_ℤ y z ≡ false → ltb_ℤ z y ≡ false → eq_ℤ x z ≡ eq_ℤ x y
eq_ℤ-trans x y z h h' = ground arith

or_swap : (a b c : Bool) → (a || (b || c)) ≡ (b || (a || c))
or_swap true true c = refl
or_swap true false c = refl
or_swap false b c = refl

or_assoc : (a b c : Bool) → (a || (b || c)) ≡ ((a || b) || c)
or_assoc true b c = refl
or_assoc false b c = refl

pub or_false : (a : Bool) → (a || false) ≡ a
or_false true = refl
or_false false = refl

or_twice : (a b c : Bool) → a ≡ b → (a || c) ≡ (b || (a || c))
or_twice true b c e = rw (← e) refl
or_twice false b c e = rw (← e) refl

contains-insert : (x y : ℤ) (ys : List ℤ) → contains x (insert y ys) ≡ (eq_ℤ x y || contains x ys)
unfolding contains insert
contains-insert x y [] = refl
contains-insert x y (z ∷ zs) =
    let rest = insert y zs in
    elim (Bool-cases (ltb_ℤ y z)) [
      | inl less ↦
          ap (λ t. contains x (if t then y ∷ z ∷ zs else if ltb_ℤ z y then z ∷ rest else z ∷ zs))
            less
      | inr more' ↦
          ap (λ t. contains x (if t then y ∷ z ∷ zs else if ltb_ℤ z y then z ∷ rest else z ∷ zs))
            more'
          ∙ elim (Bool-cases (ltb_ℤ z y)) [
            | inl more ↦
                ap (λ t. contains x (if t then z ∷ rest else z ∷ zs)) more
                ∙ ap (λ c. eq_ℤ x z || c) (contains-insert x y zs)
                ∙ or_swap (eq_ℤ x z) (eq_ℤ x y) (contains x zs)
            | inr same ↦
                ap (λ t. contains x (if t then z ∷ rest else z ∷ zs)) same
                ∙ or_twice (eq_ℤ x z) (eq_ℤ x y) (contains x zs) (eq_ℤ-trans x y z more' same)
          ]
    ]

pub contains-insert_all :
    (x : ℤ) (xs s : List ℤ) → contains x (insert_all xs s) ≡ (contains x xs || contains x s)
unfolding contains insert_all
contains-insert_all x [] s = refl
contains-insert_all x (y ∷ xs) s =
    contains-insert_all x xs (insert y s)
    ∙ ap (λ c. contains x xs || c) (contains-insert x y s)
    ∙ or_swap (contains x xs) (eq_ℤ x y) (contains x s)
    ∙ or_assoc (eq_ℤ x y) (contains x xs) (contains x s)

erase_same : (a b c : Bool) → b ≡ a → (not a && c) ≡ (not a && (b || c))
erase_same true b c e = refl
erase_same false b c e = rw e refl

erase_other : (a b c : Bool) → (b ≡ true → a ≡ false) → (a || (not b && c)) ≡ (not b && (a || c))
erase_other a true c e = rw (e refl) refl
erase_other true false c e = refl
erase_other false false c e = refl

eq_ℤ-apart : (x y z : ℤ) → eq_ℤ y z ≡ false → eq_ℤ x y ≡ true → eq_ℤ x z ≡ false
eq_ℤ-apart x y z h h' = ground arith

eq_ℤ-same : (x y z : ℤ) → eq_ℤ y z ≡ true → eq_ℤ x z ≡ eq_ℤ x y
eq_ℤ-same x y z h = ground arith

contains-erase :
    (x y : ℤ) (ys : List ℤ) → contains x (erase y ys) ≡ (not (eq_ℤ x y) && contains x ys)
unfolding contains erase
contains-erase x y [] = elim (Bool-cases (eq_ℤ x y)) [ inl e ↦ rw e refl | inr e ↦ rw e refl ]
contains-erase x y (z ∷ zs) =
    let rest = erase y zs in
    let c = contains x zs in
    elim (Bool-cases (eq_ℤ y z)) [
      | inl e ↦
          ap (λ t. contains x (if t then rest else z ∷ rest)) e
          ∙ contains-erase x y zs
          ∙ erase_same (eq_ℤ x y) (eq_ℤ x z) c (eq_ℤ-same x y z e)
      | inr e ↦
          ap (λ t. contains x (if t then rest else z ∷ rest)) e
          ∙ ap (λ r. eq_ℤ x z || r) (contains-erase x y zs)
          ∙ erase_other (eq_ℤ x z) (eq_ℤ x y) c (eq_ℤ-apart x y z e)
    ]

eq_ℤ-left : (x y z : ℤ) → eq_ℤ x y ≡ true → eq_ℤ x z ≡ eq_ℤ y z
eq_ℤ-left x y z h = ground arith

contains-same : (x y : ℤ) (ys : List ℤ) → eq_ℤ x y ≡ true → contains x ys ≡ contains y ys
unfolding contains
contains-same x y [] e = refl
contains-same x y (z ∷ zs) e =
    ap (λ t. t || contains x zs) (eq_ℤ-left x y z e)
    ∙ ap (λ t. eq_ℤ y z || t) (contains-same x y zs e)

absent :
    (x y : ℤ) (ys : List ℤ)
    → contains y ys ≡ false
    → contains x ys ≡ (not (eq_ℤ x y) && contains x ys)
absent x y ys h = elim (Bool-cases (eq_ℤ x y)) [
  | inl e ↦ contains-same x y ys e ∙ h ∙ ap (λ t. not t && contains x ys) (sym e)
  | inr e ↦ ap (λ t. not t && contains x ys) (sym e)
]

-- Erasing only what is there makes no difference.
contains-erase_if :
    (x y : ℤ) (ys : List ℤ)
    → contains x (if contains y ys then erase y ys else ys) ≡ (not (eq_ℤ x y) && contains x ys)
contains-erase_if x y ys = elim (Bool-cases (contains y ys)) [
  | inl e ↦ ap (λ t. contains x (if t then erase y ys else ys)) e ∙ contains-erase x y ys
  | inr e ↦ ap (λ t. contains x (if t then erase y ys else ys)) e ∙ absent x y ys e
]

-- `blacklist` blocks the player and no longer allows them, and changes nothing for anyone else.
pub blacklist_lem :
    (m : BlockList) (id x : ℤ)
    → (is_explicitly_blocked x (blacklist id m) ≡ (eq_ℤ x id || is_explicitly_blocked x m))
      × (is_explicitly_allowed x (blacklist id m) ≡ (not (eq_ℤ x id) && is_explicitly_allowed x m))
unfolding is_explicitly_blocked is_explicitly_allowed blacklist save
blacklist_lem m id x = (contains-insert x id m.blocked, contains-erase_if x id m.allowed)

-- `whitelist` allows the player and no longer blocks them, and changes nothing for anyone else.
whitelist_lem :
    (m : BlockList) (id x : ℤ)
    → (is_explicitly_allowed x (whitelist id m) ≡ (eq_ℤ x id || is_explicitly_allowed x m))
      × (is_explicitly_blocked x (whitelist id m) ≡ (not (eq_ℤ x id) && is_explicitly_blocked x m))
unfolding is_explicitly_blocked is_explicitly_allowed whitelist save
whitelist_lem m id x = (contains-insert x id m.allowed, contains-erase_if x id m.blocked)
