-- ===== src/Data/Bits/Bitfield.antt =====
-- src/data/bytebuffer.hpp: `readBits<N>`, `writeBits<N>`, `reflectionDecodeBitfield`,
-- `reflectionEncodeBitfield`. A bitfield struct is the list of its described flags.
use native.Mathlib.Nat.{pow-suc, pow-le-pow_right}
use native.Mathlib.Numerals.{towards_suc}
use globed.Common.{
  ℕ, zero, suc, ◌+◌, ◌*◌, ◌^◌, ◌≤◌, ◌<◌, ◌≡◌, Bool, List, [], ◌++◌, Option, none, some, arith, leb,
  if◌then◌else◌, length, append-nil,
}
use globed.Data.Words.{bits_to_bytes, bytes_be, length-bytes_be}
use globed.Data.Buffer.{
  ByteBuffer, Reader, done, thrown, ◌>>=◌, and_then, read_primitive, write_primitive,
}
use globed.Data.Buffer.Cursor.{full, at, read_primitive-at}
use globed.Data.Buffer.Writes.{write_primitive-full}
use globed.Data.Buffer.Safety.{IsSafe, Forward-refl, >>=-IsSafe, read_primitive-IsSafe}
use globed.Data.Bits.{BitBuffer, empty, of_value, write_bits, read_bits, contents}
use globed.Data.Bits.Laws.{packed, write_bits-empty, contents-packed_lt, read_bits-of_value}
use globed.Data.Serial.{Serial}

-- `sizeof(BitBuffer<N>::UnderlyingType)`.
unfoldable pub underlying_size : ℕ → ℕ
underlying_size n = if leb n 8 then 1 else if leb n 16 then 2 else if leb n 32 then 4 else 8

-- The bits of a bitfield struct T, from `sizeof(T)`.
unfoldable pub bitcount : ℕ → ℕ
unfolding bits_to_bytes
bitcount size_of = bits_to_bytes size_of * 8

-- `writeBits(bits)`; the flags are packed first, and too many of them throw.
unfoldable pub write_packed : ℕ → Option BitBuffer → ByteBuffer → ByteBuffer
write_packed n none b = b
write_packed n (some bits) b = write_primitive (underlying_size n) (contents bits) b

unfoldable encode_flags : ℕ → List Bool → ByteBuffer → ByteBuffer
encode_flags n fs b = write_packed n (write_bits fs (empty n)) b

-- `readBits<N>()` and then k times `readBit`.
unfoldable pub read_packed : Option (List Bool × BitBuffer) → Reader (List Bool)
read_packed none b = thrown b
read_packed (some (fs, bits)) b = done fs b

unfoldable pub decode_flags : ℕ → ℕ → Reader (List Bool)
decode_flags n k = do
  v ← read_primitive (underlying_size n)
  read_packed (read_bits k (of_value n v))

-- `reflectionEncodeBitfield`, `reflectionDecodeBitfield` for k flags in a struct of a given size.
unfoldable encode_bitfield : ℕ → List Bool → ByteBuffer → ByteBuffer
encode_bitfield size_of fs b = encode_flags (bitcount size_of) fs b

unfoldable pub decode_bitfield : ℕ → ℕ → Reader (List Bool)
decode_bitfield size_of k = decode_flags (bitcount size_of) k

unfoldable pub wire_packed : ℕ → Option BitBuffer → List ℕ
wire_packed n none = []
wire_packed n (some bits) = bytes_be (underlying_size n) (contents bits)

underlying_size_bounds : (n : ℕ) → n ≤ 64 → (underlying_size n ≤ 8) × (n ≤ 8 * underlying_size n)
unfolding underlying_size
underlying_size_bounds n h = ground arith

pub packed-write :
    (n : ℕ) (o : Option BitBuffer) (bs : List ℕ)
    → length bs + length (wire_packed n o) < 2 ^ 63
    → write_packed n o (full bs) ≡ full (bs ++ wire_packed n o)
unfolding write_packed wire_packed
packed-write n none bs h = rw (append-nil bs)
packed-write n (some bits) bs h =
    write_primitive-full (underlying_size n) (contents bits) bs
      (omega (arith, length-bytes_be (underlying_size n) (contents bits)))

bytes_of_bits : (m : ℕ) → 2 ^ (8 * m) ≡ 256 ^ m
bytes_of_bits zero = omega arith
bytes_of_bits (suc m) =
    let e : 8 * suc m ≡ 8 * m + 8 = omega arith in
    rw e (omega (arith, eight_more (8 * m), bytes_of_bits m, pow-suc 256 m))
  where
    eight_more : (s : ℕ) → 2 ^ (s + 8) ≡ 256 * 2 ^ s
    eight_more s = simp towards_suc (omega arith)

-- The bits fit the bytes that carry them.
bits_fit : (n m x : ℕ) → n ≤ 8 * m → x < 2 ^ n → x < 256 ^ m
bits_fit n m x h s = omega (arith, pow-le-pow_right {n = 2} (omega arith) h, bytes_of_bits m)

flags_read :
    (n : ℕ) (fs : List Bool) (front rest : List ℕ)
    → n + length fs ≤ 64
    → length front + length (wire_packed (n + length fs) (some (packed fs n))) < 2 ^ 63
    → decode_flags
        (n + length fs)
        (length fs)
        (at front (wire_packed (n + length fs) (some (packed fs n)) ++ rest))
      ≡ done fs (at (front ++ wire_packed (n + length fs) (some (packed fs n))) rest)
unfolding decode_flags wire_packed read_packed bytes_be
flags_read n fs front rest h s =
    let size = underlying_size (n + length fs) in
    let b = underlying_size_bounds (n + length fs) h in
    rw
      (
        read_primitive-at size (contents (packed fs n)) front rest
            (bits_fit (n + length fs) size _ b.1 (contents-packed_lt fs n))
            (omega (arith, length-bytes_be size (contents (packed fs n)))),
        and_then,
      )
      (rw (read_bits-of_value fs n, read_packed))

-- k flags in n + k bits.
module _ (n k : ℕ) (h : n + k ≤ 64) where
  -- Flags that were packed into a bit buffer with n bits to spare, and written as a number, are read
  -- back in their order, and what follows is left.
  pub flags-read :
      (fs : List Bool) (front rest : List ℕ)
      → length fs ≡ k
      → length front + length (wire_packed (n + k) (write_bits fs (empty (n + k)))) < 2 ^ 63
      → decode_flags
          (n + k)
          k
          (at front (wire_packed (n + k) (write_bits fs (empty (n + k))) ++ rest))
        ≡ done fs (at (front ++ wire_packed (n + k) (write_bits fs (empty (n + k)))) rest)
  flags-read fs front rest f s = rw (← f) (
      rw (write_bits-empty fs n)
        (flags_read n fs front rest (rw f h) (rw (← f, write_bits-empty fs n) at s)))

  read_packed-IsSafe : (o : Option (List Bool × BitBuffer)) → IsSafe (read_packed o)
  unfolding read_packed
  read_packed-IsSafe none b v = Forward-refl v
  read_packed-IsSafe (some (fs, bits)) b v = Forward-refl v

  pub flags-IsSafe : IsSafe (decode_flags (n + k) k)
  unfolding decode_flags
  flags-IsSafe =
      >>=-IsSafe (read_primitive (underlying_size (n + k))) _
        (read_primitive-IsSafe _ (omega (arith, underlying_size_bounds (n + k) h)))
        (λ v. read_packed-IsSafe (read_bits k (of_value (n + k) v)))

  unfoldable pub flags : Serial (List Bool)
  unfolding decode_flags encode_flags wire_packed write_bits empty
  flags = record {
    read = decode_flags (n + k) k;
    write = encode_flags (n + k);
    wire = λ fs. wire_packed (n + k) (write_bits fs (empty (n + k)));
    IsFit = λ fs. length fs ≡ k;
    write-full = λ fs. packed-write (n + k) (write_bits fs (empty (n + k)));
    read-at = flags-read;
    read-safe = flags-IsSafe;
  }

-- A described bitfield struct of `size_of` bytes with k flags, which leave n bits unused.
module _ (size_of n k : ℕ) (e : n + k ≡ bitcount size_of) (h : bitcount size_of ≤ 64) where
  pub bitfield-read :
      (fs : List Bool) (front rest : List ℕ)
      → length fs ≡ k
      → length front
          + length (wire_packed (bitcount size_of) (write_bits fs (empty (bitcount size_of))))
        < 2 ^ 63
      → decode_bitfield size_of k (
          at front
            (wire_packed (bitcount size_of) (write_bits fs (empty (bitcount size_of))) ++ rest))
        ≡ done fs (
            at
              (front ++ wire_packed (bitcount size_of) (write_bits fs (empty (bitcount size_of))))
              rest)
  unfolding decode_bitfield
  bitfield-read = rw (← e) (flags-read n k (rw e h))

  pub bitfield-IsSafe : IsSafe (decode_bitfield size_of k)
  unfolding decode_bitfield
  bitfield-IsSafe = rw (← e) (flags-IsSafe n k (rw e h))

  unfoldable pub bitfield : Serial (List Bool)
  unfolding decode_bitfield encode_bitfield encode_flags wire_packed
  bitfield = record {
    read = decode_bitfield size_of k;
    write = encode_bitfield size_of;
    wire = λ fs. wire_packed (bitcount size_of) (write_bits fs (empty (bitcount size_of)));
    IsFit = λ fs. length fs ≡ k;
    write-full = λ fs. packed-write (bitcount size_of) (write_bits fs (empty (bitcount size_of)));
    read-at = bitfield-read;
    read-safe = bitfield-IsSafe;
  }
