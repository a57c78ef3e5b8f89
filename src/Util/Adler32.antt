-- ===== src/Util/Adler32.antt =====
-- src/util/adler32.hpp.
use globed.Common.{
  ℕ, ◌+◌, ◌-◌, ◌*◌, ◌%◌, ◌^◌, ◌<◌, ◌≡◌, refl, ap, ◌∙◌, List, [], ◌∷◌, map, arith, leb,
  if◌then◌else◌, All,
}
use globed.Data.Words.{IsByte}

-- `MOD`.
abbrev pub adler_mod : ℕ
adler_mod = 65521

-- The loop, whose sums are taken in `uint32_t`, over the terms it adds.
unfoldable adler_loop : List ℕ → ℕ → ℕ → ℕ × ℕ
adler_loop [] a b = (a, b)
adler_loop (d ∷ ds) a b =
    let a' = (a + d) % 2 ^ 32 % adler_mod in adler_loop ds a' ((b + a') % 2 ^ 32 % adler_mod)

-- `(b << 16) | a`, where a has sixteen bits.
unfoldable pub packed : ℕ × ℕ → ℕ
packed (a, b) = b * 2 ^ 16 % 2 ^ 32 + a

unfoldable pub adler32 : List ℕ → ℕ
unfolding adler_loop packed
adler32 ds = packed (adler_loop ds 1 0)

-- A `char` of a string literal, as `uint32_t` takes it: sign-extended.
unfoldable extended_char : ℕ → ℕ
extended_char c = if leb 128 c then c + 2 ^ 32 - 2 ^ 8 else c

unfoldable adler32_literal : List ℕ → ℕ
unfolding adler_loop packed extended_char
adler32_literal cs = packed (adler_loop (map extended_char cs) 1 0)

-- The sums of the definition of the checksum, on unbounded numbers.
abbrev pub sums : List ℕ → ℕ → ℕ → ℕ × ℕ
sums [] a b = (a, b)
sums (d ∷ ds) a b = sums ds (a + d) (b + (a + d))

sums-loop :
    (ds : List ℕ) (a b : ℕ)
    → All IsByte ds
    → adler_loop ds (a % adler_mod) (b % adler_mod)
      ≡ ((sums ds a b).0 % adler_mod, (sums ds a b).1 % adler_mod)
unfolding adler_loop
sums-loop [] a b h = refl
sums-loop (d ∷ ds) a b h =
    let small : d < 256 = h.0 in
    let e : (a % adler_mod + d) % 2 ^ 32 % adler_mod ≡ (a + d) % adler_mod = omega (arith, small) in
    let f : (b % adler_mod + (a + d) % adler_mod) % 2 ^ 32 % adler_mod ≡ (b + (a + d)) % adler_mod =
      omega arith in
    rw (e, f) (sums-loop ds (a + d) (b + (a + d)) h.1)

-- The checksum of any bytes is the one of the definition: the sums of the bytes and of the sums,
-- each taken once modulo 65521, in the low and the high half. No sum of the loop wraps.
pub adler32-sums :
    (ds : List ℕ)
    → All IsByte ds
    → adler32 ds ≡ (sums ds 1 0).1 % adler_mod * 2 ^ 16 + (sums ds 1 0).0 % adler_mod
unfolding adler32 packed
adler32-sums ds h = ap packed (sums-loop ds 1 0 h) ∙ omega arith

-- The checksum of any bytes is a `uint32_t` with no bit lost, and both halves are below 65521.
adler32-lt :
    (ds : List ℕ)
    → All IsByte ds
    → (adler32 ds % 2 ^ 16 < adler_mod) × (adler32 ds < adler_mod * 2 ^ 16)
adler32-lt ds h = (omega (arith, adler32-sums ds h), omega (arith, adler32-sums ds h))

map-extended : (cs : List ℕ) → All (λ (c : ℕ). c < 128) cs → map extended_char cs ≡ cs
unfolding extended_char
map-extended [] h = refl
map-extended (c ∷ cs) h = ground (arith, map-extended cs h.1)

-- The checksum that the compiler takes of a literal is the one taken of its bytes at run time,
-- where the literal is ASCII.
adler32_literal-adler32 :
    (cs : List ℕ) → All (λ (c : ℕ). c < 128) cs → adler32_literal cs ≡ adler32 cs
unfolding adler32_literal adler32
adler32_literal-adler32 cs h = rw (map-extended cs h)
