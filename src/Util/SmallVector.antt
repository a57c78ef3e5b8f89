-- ===== src/Util/SmallVector.antt =====
-- src/util/collections.hpp: `SmallVector`. The storage is a union: an array of N elements, or a
-- pointer to an array on the heap. To use the member that was not written last, or a slot behind the
-- end of its array, is undefined: `none`. `at`, `begin() const` and `end() const` call a method that
-- is not const, and do not compile when they are used.
pub mod Slots
use mathlib.Core.Option.{some-injective}
use native.Mathlib.Nat.{mod-eq_of_lt}
use globed.Common.{
  ℕ, suc, ◌*◌, ◌%◌, ◌^◌, ◌≤◌, ◌<◌, ◌≡◌, refl, sym, ap, ◌∙◌, Option, some, Bool, false, not, List,
  [], ◌∷◌, ◌++◌, arith, length, ◌==◌, set, length-set, take, Bool-cases, inl, inr, if◌then◌else◌,
}
use globed.Util.SmallVector.Slots.{
  ◌>>=◌, Storage, stack_storage, heap_storage, write_slot, dataptr, move_elements, with_slots,
  write_slot_lem, take-set, move_elements_lem, dataptr-with_slots,
}

pub record SmallVector {ℓ} (A : Type ℓ) : Type ℓ where
  pub size : ℕ
  pub capacity : ℕ
  pub storage : Storage A

module _ {ℓ} {A : Type ℓ} where
  -- The template's N, and what `new T[n]` holds.
  module _ (n : ℕ) (fresh : ℕ → List A) where
    unfoldable heap_backed : SmallVector A → Bool
    heap_backed v = not (v.capacity == n)

    unfoldable pub empty_vector : SmallVector A
    empty_vector = record { size = 0; capacity = n; storage = stack_storage (fresh n) }

    unfoldable pub pointed : SmallVector A → Option (List A)
    unfolding heap_backed dataptr
    pointed v = dataptr (heap_backed v) v.storage

    -- The old array is chosen before the capacity changes.
    unfoldable expand : SmallVector A → Option (SmallVector A)
    unfolding pointed move_elements
    expand v = do
      old ← pointed v
      let capacity = v.capacity * 2 % 2 ^ 64
      new ← move_elements v.size 0 old (fresh capacity)
      some (record { size = v.size; capacity = capacity; storage = heap_storage new })

    -- `dataptr[size_++] = value`.
    unfoldable append : A → SmallVector A → Option (SmallVector A)
    unfolding pointed write_slot with_slots
    append x v = do
      slots ← pointed v
      slots' ← write_slot v.size x slots
      some (record v { size = suc v.size; storage = with_slots v.storage slots' })

    unfoldable pub push_back : A → SmallVector A → Option (SmallVector A)
    unfolding append expand
    push_back x v = if v.size == v.capacity then (do v' ← expand v; append x v') else append x v

    -- What `begin()` to `end()` run over.
    unfoldable pub iterated : SmallVector A → Option (List A)
    unfolding pointed
    iterated v = do slots ← pointed v; some (take v.size slots)

    -- The capacity tells the member of the union that was written last, its array has that many
    -- slots, and the elements fit in it.
    pub record IsBacked (v : SmallVector A) : Type ℓ where
      pub slots : List A
      pub member : pointed v ≡ some slots
      pub full : length slots ≡ v.capacity
      pub room : v.size ≤ v.capacity
      pub at_least : n ≤ v.capacity

    iterated_slots :
        (v : SmallVector A) (slots : List A)
        → pointed v ≡ some slots
        → iterated v ≡ some (take v.size slots)
    unfolding iterated
    iterated_slots v slots e = rw e refl

    -- What a push promises of a vector that held some elements.
    abbrev pub IsPushed : A → List A → Option (SmallVector A) → Type ℓ
    IsPushed x xs r =
        (v' : SmallVector A) × (r ≡ some v') × IsBacked v' × (iterated v' ≡ some (xs ++ x ∷ []))

    append-IsPushed :
        (x : A) (v : SmallVector A) (b : IsBacked v)
        → v.size < v.capacity
        → IsPushed x (take v.size b.slots) (append x v)
    unfolding append pointed heap_backed
    append-IsPushed x v b h =
        let slots = set b.slots v.size x in
        let v' : SmallVector A = record v {
          size = suc v.size;
          storage = with_slots v.storage slots;
        } in
        let w = write_slot_lem v.size x b.slots (omega (arith, b.full)) in
        let p : pointed v' ≡ some slots =
          dataptr-with_slots (heap_backed v) v.storage b.slots slots b.member in
        (
          v',
          ap
                (λ o. o >>= λ ys. write_slot v.size x ys >>= λ zs.
                  some (record v { size = suc v.size; storage = with_slots v.storage zs }))
                b.member
              ∙ ap
                  (λ o. o >>= λ zs.
                    some (record v { size = suc v.size; storage = with_slots v.storage zs }))
                  w,
          record {
            slots = slots;
            member = p;
            full = length-set b.slots v.size x ∙ b.full;
            room = omega arith;
            at_least = b.at_least;
          },
          iterated_slots v' slots p ∙ ap some (take-set b.slots v.size x (omega (arith, b.full))),
        )

    module _ (length-fresh : (c : ℕ) → length (fresh c) ≡ c) where
      expand-IsBacked :
          (v : SmallVector A) (b : IsBacked v)
          → 0 < n
          → v.size ≡ v.capacity
          → v.capacity < 2 ^ 63
          → (v' : SmallVector A) × (expand v ≡ some v')
            × (c : IsBacked v') × (v'.size < v'.capacity)
            × (take v'.size c.slots ≡ take v.size b.slots)
      unfolding expand pointed heap_backed dataptr
      expand-IsBacked v b pos e h =
          let c = v.capacity * 2 in
          let wrap : c % 2 ^ 64 ≡ c = mod-eq_of_lt (omega arith) in
          let (new, run, l, t) =
            move_elements_lem v.size 0 v.size b.slots (fresh c) (omega arith)
              (omega (arith, b.full)) (omega (arith, length-fresh c)) refl in
          let v' : SmallVector A = record {
            size = v.size;
            capacity = c;
            storage = heap_storage new;
          } in
          let other : (c == n) ≡ false = ground (arith, b.at_least) in
          (
            v',
            ap
                  (λ o. o >>= λ ys. move_elements v.size 0 ys (fresh (c % 2 ^ 64)) >>= λ zs.
                    some
                      (record { size = v.size; capacity = c % 2 ^ 64; storage = heap_storage zs }))
                  b.member
                ∙ ap
                    (λ k. move_elements v.size 0 b.slots (fresh k) >>= λ zs.
                      some (record { size = v.size; capacity = k; storage = heap_storage zs }))
                    wrap
                ∙ ap
                    (λ o. o >>= λ zs.
                      some (record { size = v.size; capacity = c; storage = heap_storage zs }))
                    run,
            record {
              slots = new;
              member = rw other refl;
              full = l ∙ length-fresh c;
              room = omega arith;
              at_least = omega (arith, b.at_least);
            },
            omega (arith, b.at_least),
            t,
          )

      -- A push into a vector, whose template's N is positive and whose capacity does not wrap around
      -- when it doubles, never uses the wrong member of the union or a slot behind its array. It
      -- keeps the elements within the capacity and in the member that the capacity tells, through the
      -- move to the heap as well, and the iterators run over what was there and then the value.
      pub push_back-IsBacked :
          (x : A) (v : SmallVector A) (xs : List A)
          → 0 < n
          → v.capacity < 2 ^ 63
          → IsBacked v
          → iterated v ≡ some xs
          → IsPushed x xs (push_back x v)
      unfolding push_back
      push_back-IsBacked x v xs pos h b e =
          let same : take v.size b.slots ≡ xs =
            some-injective (take v.size b.slots) xs (sym (iterated_slots v b.slots b.member) ∙ e) in
          elim (Bool-cases (v.size == v.capacity)) [
            | inl t ↦
                let (v', run, b', room, kept) = expand-IsBacked v b pos (ground (arith, t)) h in
                let (w, run', c, i) = append-IsPushed x v' b' room in
                (
                  w,
                  ap (λ y. if y then (expand v >>= append x) else append x v) t
                      ∙ ap (λ o. o >>= append x) run
                      ∙ run',
                  c,
                  i ∙ ap (λ ys. some (ys ++ x ∷ [])) (kept ∙ same),
                )
            | inr t ↦
                let (w, run, c, i) = append-IsPushed x v b (ground (arith, t, b.room)) in
                (
                  w,
                  ap (λ y. if y then (expand v >>= append x) else append x v) t ∙ run,
                  c,
                  i ∙ ap (λ ys. some (ys ++ x ∷ [])) same,
                )
          ]
