-- ===== src/Util/SmallVector/Slots.antt =====
-- src/util/collections.hpp: the storage of `SmallVector`, and the loop of `expand` over its slots.
use globed.Common.{
  ℕ, zero, suc, ◌+◌, ◌≤◌, ◌<◌, ◌≡◌, refl, sym, ap, ◌∙◌, Option, none, some, Bool, true, false, List,
  [], ◌∷◌, ◌++◌, arith, length, ltb, get_elem?, set, length-set, take, if◌then◌else◌,
}

-- What is undefined ends everything.
infixl 5 ◌>>=◌
abbrev pub ◌>>=◌ {ℓ κ} : {A : Type ℓ} {B : Type κ} → Option A → (A → Option B) → Option B
none >>= f = none
some a >>= f = f a

-- All the slots of the array, those behind the elements too.
pub data Storage {ℓ} (A : Type ℓ) : Type ℓ where
  stack_storage heap_storage : List A → Storage A

module _ {ℓ} {A : Type ℓ} where
  -- One slot of an array.
  unfoldable pub write_slot : ℕ → A → List A → Option (List A)
  write_slot i a xs = if ltb i (length xs) then some (set xs i a) else none

  -- `heapBacked() ? heapStorage : stackStorage`.
  unfoldable pub dataptr : Bool → Storage A → Option (List A)
  dataptr false (stack_storage xs) = some xs
  dataptr true (stack_storage xs) = none
  dataptr false (heap_storage xs) = none
  dataptr true (heap_storage xs) = some xs

  -- The loop of `expand`, so many elements from an index on.
  unfoldable pub move_elements : ℕ → ℕ → List A → List A → Option (List A)
  unfolding write_slot
  move_elements zero i old new = some new
  move_elements (suc r) i old new = do
    a ← get_elem? old i
    new' ← write_slot i a new
    move_elements r (suc i) old new'

  -- The array of the same member, with other slots.
  unfoldable pub with_slots : Storage A → List A → Storage A
  with_slots (stack_storage xs) ys = stack_storage ys
  with_slots (heap_storage xs) ys = heap_storage ys

  pub write_slot_lem :
      (i : ℕ) (a : A) (xs : List A) → i < length xs → write_slot i a xs ≡ some (set xs i a)
  unfolding write_slot
  write_slot_lem i a xs h = let e : ltb i (length xs) ≡ true = ground arith in rw e refl

  pub take-set :
      (xs : List A) (i : ℕ) (a : A)
      → i < length xs
      → take (suc i) (set xs i a) ≡ take i xs ++ a ∷ []
  take-set [] i a h = absurd (omega arith)
  take-set (x ∷ xs) zero a h = refl
  take-set (x ∷ xs) (suc i) a h = ap (◌∷◌ x) (take-set xs i a (omega arith))

  take_next :
      (xs : List A) (i : ℕ)
      → i < length xs
      → (a : A) × (get_elem? xs i ≡ some a) × (take (suc i) xs ≡ take i xs ++ a ∷ [])
  take_next [] i h = absurd (omega arith)
  take_next (x ∷ xs) zero h = (x, refl, refl)
  take_next (x ∷ xs) (suc i) h =
      let (a, e, t) = take_next xs i (omega arith) in (a, e, ap (◌∷◌ x) t)

  pub move_elements_lem :
      (r i m : ℕ) (old new : List A)
      → i + r ≡ m
      → m ≤ length old
      → m ≤ length new
      → take i new ≡ take i old
      → (new' : List A) × (move_elements r i old new ≡ some new')
        × (length new' ≡ length new)
        × (take m new' ≡ take m old)
  unfolding move_elements
  move_elements_lem zero i m old new e h k t =
      let d : i ≡ m = omega arith in (new, refl, refl, rw (← d) t)
  move_elements_lem (suc r) i m old new e h k t =
      let (a, g, n) = take_next old i (omega arith) in
      let w = write_slot_lem i a new (omega arith) in
      let l = length-set new i a in
      let (new', run, l', t') =
        move_elements_lem r (suc i) m old (set new i a) (omega arith) h (omega (arith, l))
          (take-set new i a (omega arith) ∙ ap (λ bs. bs ++ a ∷ []) t ∙ sym n) in
      (new', rw (g, w) run, l' ∙ l, t')

  pub dataptr-with_slots :
      (b : Bool) (s : Storage A) (xs ys : List A)
      → dataptr b s ≡ some xs
      → dataptr b (with_slots s ys) ≡ some ys
  unfolding dataptr with_slots
  dataptr-with_slots false (stack_storage zs) xs ys e = refl
  dataptr-with_slots true (stack_storage zs) xs ys e = absurd (ground (arith, e))
  dataptr-with_slots false (heap_storage zs) xs ys e = absurd (ground (arith, e))
  dataptr-with_slots true (heap_storage zs) xs ys e = refl
