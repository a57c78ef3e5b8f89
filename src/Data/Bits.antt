-- ===== src/Data/Bits.antt =====
-- src/data/bitbuffer.hpp: `BitBuffer<N>`, which is filled and read from the highest bit down.
-- A `std::bitset<N>` is a list of N booleans, bit 0 first. `none` is a failed `GLOBED_REQUIRE`.
pub mod Laws
pub mod Bitfield
use globed.Common.{
  ℕ, zero, suc, ◌+◌, ◌-◌, ◌*◌, ◌/◌, ◌%◌, Bool, false, List, [], ◌∷◌, Option, none, some, ◌==◌,
  if◌then◌else◌, length, get_elem?, set, replicate,
}

pub record BitBuffer : Type 0 where
  pub bitset : List Bool
  pub position : ℕ

infixl 5 ◌>>=◌
abbrev pub ◌>>=◌ : {A B : Type 0} → Option A → (A → Option B) → Option B
none >>= f = none
some a >>= f = f a

-- `std::bitset<N>(val)` and `to_ullong`.
unfoldable pub bits_of : ℕ → ℕ → List Bool
bits_of zero v = []
bits_of (suc n) v = (v % 2 == 1) ∷ bits_of n (v / 2)

unfoldable pub number_of : List Bool → ℕ
number_of [] = 0
number_of (b ∷ bs) = (if b then 1 else 0) + 2 * number_of bs

-- The constructors.
unfoldable pub empty : ℕ → BitBuffer
empty n = record { bitset = replicate n false; position = 0 }

unfoldable pub of_value : ℕ → ℕ → BitBuffer
unfolding bits_of
of_value n v = record { bitset = bits_of n v; position = 0 }

unfoldable pub write_bit : Bool → BitBuffer → Option BitBuffer
write_bit value b =
    if b.position == length b.bitset
    then none
    else some (record {
      bitset = set b.bitset (length b.bitset - (b.position + 1)) value;
      position = b.position + 1;
    })

unfoldable pub write_bits : List Bool → BitBuffer → Option BitBuffer
write_bits [] b = some b
write_bits (v ∷ vs) b = write_bit v b >>= write_bits vs

unfoldable pub read_bit : BitBuffer → Option (Bool × BitBuffer)
read_bit b =
    if b.position == length b.bitset
    then none
    else get_elem? b.bitset (length b.bitset - (b.position + 1)) >>= λ v.
        some (v, record b { position = b.position + 1 })

-- `readBitsInto` with n flags.
unfoldable pub read_bits : ℕ → BitBuffer → Option (List Bool × BitBuffer)
unfolding read_bit
read_bits zero b = some ([], b)
read_bits (suc n) b = do (v, b') ← read_bit b; (vs, b'') ← read_bits n b'; some (v ∷ vs, b'')

unfoldable pub contents : BitBuffer → ℕ
unfolding number_of
contents b = number_of b.bitset

unfoldable pub clear : BitBuffer → BitBuffer
clear b = record b { bitset = replicate (length b.bitset) false }
