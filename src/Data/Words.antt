-- ===== src/Data/Words.antt =====
-- src/util/data.hpp, src/util/data.cpp: integers in memory and on the wire.
-- An integer of n bytes is a number, reduced by `% 256` byte by byte. A float or a double is its
-- bit pattern: the code moves floats and never computes with them on the way to the wire.
-- `bytes_le` is the memory of a little-endian host, which `memcpy` copies; `bytes_be` is the
-- network's order.
use mathlib.Core.List.{reverse-reverse}
use native.Mathlib.Nat.{pow-suc}
use globed.Common.{
  ℕ, zero, suc, ◌+◌, ◌*◌, ◌/◌, ◌%◌, ◌^◌, ◌<◌, ◌≡◌, refl, ap, ◌∙◌, Bool, true, List, [], ◌∷◌,
  reverse, arith, length, length-reverse, All, All-reverse, if◌then◌else◌,
}

abbrev pub IsByte : ℕ → Type 0
IsByte b = b < 256

unfoldable pub bytes_le : ℕ → ℕ → List ℕ
bytes_le zero v = []
bytes_le (suc n) v = v % 256 ∷ bytes_le n (v / 256)

unfoldable pub of_bytes_le : List ℕ → ℕ
of_bytes_le [] = 0
of_bytes_le (b ∷ bs) = b + 256 * of_bytes_le bs

unfoldable pub bytes_be : ℕ → ℕ → List ℕ
unfolding bytes_le
bytes_be n v = reverse (bytes_le n v)

-- `GLOBED_LITTLE_ENDIAN`, from src/defs/platform.hpp.
abbrev little_endian : Bool
little_endian = true

-- `byteswapU16`, `byteswapU32`, `byteswapU64` and their signed and float forms, which cast.
unfoldable byteswap : ℕ → ℕ → ℕ
unfolding bytes_le of_bytes_le
byteswap n v = of_bytes_le (reverse (bytes_le n v))

unfoldable pub maybe_byteswap : ℕ → ℕ → ℕ
unfolding byteswap
maybe_byteswap n v = if little_endian then byteswap n v else v

-- `bitsToBytes`.
unfoldable pub bits_to_bytes : ℕ → ℕ
bits_to_bytes bits = (bits + 7) / 8

length-bytes_le : (n v : ℕ) → length (bytes_le n v) ≡ n
unfolding bytes_le
length-bytes_le zero v = refl
length-bytes_le (suc n) v = ap suc (length-bytes_le n (v / 256))

pub length-bytes_be : (n v : ℕ) → length (bytes_be n v) ≡ n
unfolding bytes_be
length-bytes_be n v = length-reverse (bytes_le n v) ∙ length-bytes_le n v

bytes_le-IsByte : (n v : ℕ) → All IsByte (bytes_le n v)
unfolding bytes_le
bytes_le-IsByte zero v = tt
bytes_le-IsByte (suc n) v = (omega arith, bytes_le-IsByte n (v / 256))

bytes_be-IsByte : (n v : ℕ) → All IsByte (bytes_be n v)
unfolding bytes_be
bytes_be-IsByte n v = All-reverse IsByte (bytes_le n v) (bytes_le-IsByte n v)

of_bytes_le-lt : (bs : List ℕ) → All IsByte bs → of_bytes_le bs < 256 ^ length bs
unfolding of_bytes_le
of_bytes_le-lt [] p = omega arith
of_bytes_le-lt (b ∷ bs) p = omega (arith, of_bytes_le-lt bs p.1, pow-suc 256 (length bs))

-- Reading back what was laid out, and laying out what was read.
of_bytes_le-bytes_le : (n v : ℕ) → v < 256 ^ n → of_bytes_le (bytes_le n v) ≡ v
unfolding bytes_le of_bytes_le
of_bytes_le-bytes_le zero v h = omega arith
of_bytes_le-bytes_le (suc n) v h = omega (arith, of_bytes_le-bytes_le n (v / 256) (omega arith))

bytes_le-of_bytes_le :
    (n : ℕ) (bs : List ℕ) → length bs ≡ n → All IsByte bs → bytes_le n (of_bytes_le bs) ≡ bs
unfolding bytes_le of_bytes_le
bytes_le-of_bytes_le zero [] h p = refl
bytes_le-of_bytes_le zero (b ∷ bs) h p = absurd (omega arith)
bytes_le-of_bytes_le (suc n) [] h p = absurd (omega arith)
bytes_le-of_bytes_le (suc n) (b ∷ bs) h p =
    ground (arith, bytes_le-of_bytes_le n bs (omega arith) p.1)

-- What a little-endian host stores after the swap is in network order.
pub bytes_le-maybe_byteswap : (n v : ℕ) → bytes_le n (maybe_byteswap n v) ≡ bytes_be n v
unfolding maybe_byteswap byteswap bytes_be
bytes_le-maybe_byteswap n v =
    bytes_le-of_bytes_le n (reverse (bytes_le n v)) (length-bytes_be n v) (bytes_be-IsByte n v)

-- And what it loads from network order is the number, after the swap.
pub maybe_byteswap-of_bytes_be :
    (n v : ℕ) → v < 256 ^ n → maybe_byteswap n (of_bytes_le (bytes_be n v)) ≡ v
unfolding maybe_byteswap byteswap bytes_be
maybe_byteswap-of_bytes_be n v h =
    rw (bytes_le-of_bytes_le n (reverse (bytes_le n v)) (length-bytes_be n v) (bytes_be-IsByte n v))
      (rw (reverse-reverse (bytes_le n v)) (of_bytes_le-bytes_le n v h))

-- The swap undoes itself.
byteswap-byteswap : (n v : ℕ) → v < 256 ^ n → byteswap n (byteswap n v) ≡ v
unfolding byteswap maybe_byteswap bytes_be
byteswap-byteswap n v h = maybe_byteswap-of_bytes_be n v h

of_bytes_be-lt : (n v : ℕ) → of_bytes_le (bytes_be n v) < 256 ^ n
of_bytes_be-lt n v =
    rw (length-bytes_be n v) at (of_bytes_le-lt (bytes_be n v) (bytes_be-IsByte n v))

pub maybe_byteswap-lt : (n v : ℕ) → maybe_byteswap n v < 256 ^ n
unfolding maybe_byteswap byteswap bytes_be
maybe_byteswap-lt n v = of_bytes_be-lt n v
