-- ===== src/Data/Bits/Laws.antt =====
-- src/data/bitbuffer.hpp: flags that are written are read back.
use mathlib.Core.List.{reverse-cons}
use globed.Common.{
  ℕ, zero, suc, ◌+◌, ◌^◌, ◌<◌, ◌≡◌, refl, sym, ap, ◌∙◌, Bool, true, false, List, [], ◌∷◌, ◌++◌,
  reverse, some, arith, length, length-append, length-replicate, length-reverse, get_elem?, set,
  replicate, append_assoc, append-nil,
}
use native.Mathlib.Nat.{pow-suc, zero-add}
use globed.Data.Bits.{
  BitBuffer, ◌>>=◌, bits_of, number_of, empty, of_value, write_bit, write_bits, read_bit, read_bits,
  contents,
}

bits_of-number_of : (bs : List Bool) → bits_of (length bs) (number_of bs) ≡ bs
unfolding bits_of number_of
bits_of-number_of [] = refl
bits_of-number_of (true ∷ bs) = ground (arith, bits_of-number_of bs)
bits_of-number_of (false ∷ bs) = ground (arith, bits_of-number_of bs)

number_of-lt : (bs : List Bool) → number_of bs < 2 ^ length bs
unfolding number_of
number_of-lt [] = omega arith
number_of-lt (true ∷ bs) = omega (arith, number_of-lt bs, pow-suc 2 (length bs))
number_of-lt (false ∷ bs) = omega (arith, number_of-lt bs, pow-suc 2 (length bs))

get_elem?_seam :
    (low high : List Bool) (x : Bool) → get_elem? (low ++ x ∷ high) (length low) ≡ some x
get_elem?_seam [] high x = refl
get_elem?_seam (y ∷ low) high x = get_elem?_seam low high x

set_seam :
    (low high : List Bool) (x y : Bool) → set (low ++ x ∷ high) (length low) y ≡ low ++ y ∷ high
set_seam [] high x y = refl
set_seam (z ∷ low) high x y = ap (◌∷◌ z) (set_seam low high x y)

-- The next bit lies below the `position` bits that were read or written.
read_bit_seam :
    (low high : List Bool) (x : Bool)
    → read_bit (record { bitset = low ++ x ∷ high; position = length high })
      ≡ some (x, record { bitset = low ++ x ∷ high; position = suc (length high) })
unfolding read_bit
read_bit_seam low high x = ground (arith, length-append low (x ∷ high), get_elem?_seam low high x)

write_bit_seam :
    (low high : List Bool) (x y : Bool)
    → write_bit y (record { bitset = low ++ x ∷ high; position = length high })
      ≡ some (record { bitset = low ++ y ∷ high; position = suc (length high) })
unfolding write_bit
write_bit_seam low high x y = ground (arith, length-append low (x ∷ high), set_seam low high x y)

last_first :
    (f : Bool) (fs low high : List Bool)
    → low ++ (reverse (f ∷ fs) ++ high) ≡ (low ++ reverse fs) ++ f ∷ high
last_first f fs low high =
    ap (λ bs. low ++ (bs ++ high)) (reverse-cons f fs)
    ∙ ap (◌++◌ low) (append_assoc (reverse fs) (f ∷ []) high)
    ∙ sym (append_assoc low (reverse fs) (f ∷ high))

replicate_snoc :
    (n : ℕ) (high : List Bool) → replicate (suc n) false ++ high ≡ replicate n false ++ false ∷ high
replicate_snoc zero high = refl
replicate_snoc (suc n) high = ap (◌∷◌ false) (replicate_snoc n high)

-- The flags `fs` stand in the set from high to low, below the `position` flags passed already.
read_bits-append :
    (fs low high : List Bool)
    → read_bits
        (length fs)
        (record { bitset = low ++ (reverse fs ++ high); position = length high })
      ≡ some
          (fs, record { bitset = low ++ (reverse fs ++ high); position = length high + length fs })
unfolding read_bits
read_bits-append [] low high = ground arith
read_bits-append (f ∷ fs) low high =
    let e : length high + suc (length fs) ≡ suc (length high) + length fs = omega arith in
    rw (last_first f fs low high, e)
      (rw (read_bit_seam (low ++ reverse fs) high f, ◌>>=◌)
        (rw (append_assoc low (reverse fs) (f ∷ high))
          (rw (read_bits-append fs low (f ∷ high), ◌>>=◌))))

write_bits-append :
    (fs : List Bool) (n : ℕ) (high : List Bool)
    → write_bits fs
        (record { bitset = replicate (n + length fs) false ++ high; position = length high })
      ≡ some (record {
        bitset = replicate n false ++ (reverse fs ++ high);
        position = length high + length fs;
      })
unfolding write_bits
write_bits-append [] n high = ground arith
write_bits-append (f ∷ fs) n high =
    let e : length high + suc (length fs) ≡ suc (length high) + length fs = omega arith in
    let e' : n + suc (length fs) ≡ suc (n + length fs) = omega arith in
    rw (e, e', replicate_snoc (n + length fs) high)
      (rw (write_bit_seam (replicate (n + length fs) false) high false f, ◌>>=◌)
        (write_bits-append fs n (f ∷ high)
          ∙ ap (λ bs. some (record { bitset = bs; position = suc (length high) + length fs }))
              (sym (
                last_first f fs (replicate n false) high
                ∙ append_assoc (replicate n false) (reverse fs) (f ∷ high)))))

-- The flags in a set of n bits more, all passed.
abbrev pub packed : List Bool → ℕ → BitBuffer
packed fs n = record { bitset = replicate n false ++ reverse fs; position = length fs }

module _ (fs : List Bool) (n : ℕ) where
  length-packed : length (packed fs n).bitset ≡ n + length fs
  length-packed = omega (
    arith,
    length-append (replicate n false) (reverse fs),
    length-replicate n false,
    length-reverse fs,
  )

  pub write_bits-empty : write_bits fs (empty (n + length fs)) ≡ some (packed fs n)
  unfolding empty
  write_bits-empty =
      rw (append-nil (replicate (n + length fs) false), append-nil (reverse fs), zero-add) at
        (write_bits-append fs n [])

  pub contents-packed_lt : contents (packed fs n) < 2 ^ (n + length fs)
  unfolding contents
  contents-packed_lt = rw length-packed at (number_of-lt (packed fs n).bitset)

  value : bits_of (n + length fs) (number_of (packed fs n).bitset) ≡ (packed fs n).bitset
  value = rw length-packed at (bits_of-number_of (packed fs n).bitset)

  pub read_bits-of_value :
      read_bits (length fs) (of_value (n + length fs) (contents (packed fs n)))
      ≡ some (fs, packed fs n)
  unfolding of_value contents
  read_bits-of_value =
      rw value
        (rw (append-nil (reverse fs), zero-add) at (read_bits-append fs (replicate n false) []))
