-- ===== src/Data/Buffer/Safety.antt =====
-- src/data/bytebuffer.hpp: a read on any input, well formed or not, only moves the position
-- forward, within the buffer.
use globed.Common.{ℕ, ◌^◌, ◌≤◌, ◌<◌, ◌≡◌, refl, arith, length, take, drop}
use globed.Data.Words.{maybe_byteswap-lt, of_bytes_le}
use globed.Data.Buffer.{
  ByteBuffer, Outcome, done, failed, thrown, Reader, and_then, ◌>>=◌, bounds_check, read_bytes_into,
  raw_read, read_primitive, read_length, read_bool,
}
use globed.Data.Buffer.Cursor.{IsValid}

abbrev pub after {ℓ} : {A : Type ℓ} → Outcome A → ByteBuffer
after (done a b) = b
after (failed e b) = b
after (thrown b) = b

pub record Forward (b b' : ByteBuffer) : Type 0 where
  pub same : b'.bytes ≡ b.bytes
  pub onward : b.position ≤ b'.position
  pub within : b'.position ≤ length b'.bytes

-- A reader that cannot leave the buffer.
abbrev pub IsSafe {ℓ} : {A : Type ℓ} → Reader A → Type 0
IsSafe m = (b : ByteBuffer) → IsValid b → Forward b (after (m b))

pub Forward-refl : {b : ByteBuffer} → IsValid b → Forward b b
Forward-refl v = record { same = refl; onward = omega arith; within = omega arith }

Forward-IsValid : {b b' : ByteBuffer} → IsValid b → Forward b b' → IsValid b'
Forward-IsValid {b} {b'} v f = record { within = f.within; small = rw f.same v.small }

Forward-trans : {a b c : ByteBuffer} → Forward a b → Forward b c → Forward a c
Forward-trans f g = ground arith

and_then-Forward {ℓ κ} :
    {A : Type ℓ} {B : Type κ} (b : ByteBuffer) (o : Outcome A) (f : A → Reader B)
    → IsValid b
    → Forward b (after o)
    → ((a : A) → IsSafe (f a))
    → Forward b (after (and_then o f))
and_then-Forward b (done a b') f v h k = Forward-trans h (k a b' (Forward-IsValid v h))
and_then-Forward b (failed e b') f v h k = h
and_then-Forward b (thrown b') f v h k = h

-- The same, with what is known of the value that was read.
pub and_then-Forward_of {ℓ κ} :
    {A : Type ℓ} {B : Type κ} (b : ByteBuffer) (o : Outcome A) (f : A → Reader B)
    → IsValid b
    → Forward b (after o)
    → ((a : A) (b' : ByteBuffer) → o ≡ done a b' → IsValid b' → Forward b' (after (f a b')))
    → Forward b (after (and_then o f))
and_then-Forward_of b (done a b') f v h k = Forward-trans h (k a b' refl (Forward-IsValid v h))
and_then-Forward_of b (failed e b') f v h k = h
and_then-Forward_of b (thrown b') f v h k = h

pub >>=-IsSafe {ℓ κ} :
    {A : Type ℓ} {B : Type κ} (m : Reader A) (f : A → Reader B)
    → IsSafe m
    → ((a : A) → IsSafe (f a))
    → IsSafe (m >>= f)
>>=-IsSafe m f h k b v = and_then-Forward b (m b) f v (h b v) k

module _ (n : ℕ) (h : n < 2 ^ 63) where
  bounds_check-IsSafe : IsSafe (bounds_check n)
  unfolding bounds_check
  bounds_check-IsSafe b v = ground arith

  pub read_bytes_into-IsSafe : IsSafe (read_bytes_into n)
  unfolding read_bytes_into
  read_bytes_into-IsSafe b v = ground arith

  raw_read-IsSafe : IsSafe (raw_read n)
  unfolding raw_read
  raw_read-IsSafe b v = ground arith

  pub read_primitive-IsSafe : IsSafe (read_primitive n)
  unfolding read_primitive
  read_primitive-IsSafe = >>=-IsSafe (raw_read n) _ raw_read-IsSafe (λ a b v. Forward-refl v)

pub read_length-IsSafe : IsSafe read_length
unfolding read_length
read_length-IsSafe = read_primitive-IsSafe 2 (omega arith)

-- A length prefix is a `uint16_t`, whatever stands in the buffer.
pub read_length-lt : (b b' : ByteBuffer) (n : ℕ) → read_length b ≡ done n b' → n < 2 ^ 16
unfolding read_length read_primitive raw_read bounds_check
read_length-lt b b' n e =
    ground (arith, maybe_byteswap-lt 2 (of_bytes_le (take 2 (drop b.position b.bytes))))

pub read_bool-IsSafe : IsSafe read_bool
unfolding read_bool
read_bool-IsSafe =
    >>=-IsSafe (read_primitive 1) _ (read_primitive-IsSafe 1 (omega arith))
      (λ a b v. Forward-refl v)
