-- ===== src/Data/Buffer.antt =====
-- src/data/bytebuffer.hpp, src/data/bytebuffer.cpp: the buffer, its raw and primitive operations.
-- A `size_t` has 64 bits, and its sums wrap. A method that can fail is a `Reader`: it hands on the
-- buffer as it left it, also beside an error.
pub mod Writes
pub mod Cursor
pub mod Safety
use globed.Common.{
  ℕ, ◌+◌, ◌-◌, ◌*◌, ◌%◌, ◌^◌, Bool, not, List, [], ◌∷◌, ◌++◌, ltb, ◌==◌, if◌then◌else◌, length,
  take, drop, set, replicate,
}
use globed.Data.Words.{bytes_le, of_bytes_le, maybe_byteswap}

pub data DecodeError : Type 0 where
  ok not_enough_data invalid_enum_value data_too_long length_prefix_too_long : DecodeError

pub record ByteBuffer : Type 0 where
  pub bytes : List ℕ
  pub position : ℕ

-- `DecodeResult<T>`, with the buffer after the call; `thrown` is a failed `GLOBED_REQUIRE`.
pub data Outcome {ℓ} (A : Type ℓ) : Type ℓ where
  done : A → ByteBuffer → Outcome A
  failed : DecodeError → ByteBuffer → Outcome A
  thrown : ByteBuffer → Outcome A

abbrev pub Reader {ℓ} : Type ℓ → Type ℓ
Reader A = ByteBuffer → Outcome A

-- `GLOBED_UNWRAP_INTO`: an error ends the method.
abbrev pub and_then {ℓ κ} : {A : Type ℓ} {B : Type κ} → Outcome A → (A → Reader B) → Outcome B
and_then (done a b) f = f a b
and_then (failed e b) f = failed e b
and_then (thrown b) f = thrown b

infixl 5 ◌>>=◌ ◌>>◌
abbrev pub ◌>>=◌ {ℓ κ} : {A : Type ℓ} {B : Type κ} → Reader A → (A → Reader B) → Reader B
◌>>=◌ m f b = and_then (m b) f

abbrev pub ◌>>◌ {ℓ} : {B : Type ℓ} → Reader (Unit {0}) → Reader B → Reader B
m >> k = m >>= λ _. k

abbrev pub pure {ℓ} : {A : Type ℓ} → A → Reader A
pure a b = done a b

abbrev pub fail {ℓ} : {A : Type ℓ} → DecodeError → Reader A
fail e b = failed e b

abbrev size_mod : ℕ
size_mod = 2 ^ 64

abbrev pub add_size : ℕ → ℕ → ℕ
add_size a b = (a + b) % size_mod

abbrev pub sub_size : ℕ → ℕ → ℕ
sub_size a b = (a + size_mod - b % size_mod) % size_mod

-- The constructors, `data`, `size`, `getPosition`, `setPosition`, `clear`.
unfoldable pub of_bytes : List ℕ → ByteBuffer
of_bytes bs = record { bytes = bs; position = 0 }

unfoldable pub size : ByteBuffer → ℕ
size b = length b.bytes

unfoldable pub set_position : ℕ → ByteBuffer → ByteBuffer
set_position p b = record b { position = p }

unfoldable pub clear : ByteBuffer → ByteBuffer
clear b = record { bytes = []; position = 0 }

-- `std::vector::resize` cuts, or adds zeros.
unfoldable pub resize : ℕ → ByteBuffer → ByteBuffer
resize n b = record b { bytes = take n b.bytes ++ replicate (n - length b.bytes) 0 }

unfoldable pub grow : ℕ → ByteBuffer → ByteBuffer
unfolding resize size
grow n b = resize (add_size (size b) n) b

unfoldable shrink : ℕ → ByteBuffer → ByteBuffer
unfolding resize size
shrink n b = resize (sub_size (size b) n) b

-- The loop `_data.data()[_position + i] = bytes[i]`.
unfoldable pub overwrite : List ℕ → ℕ → List ℕ → List ℕ
overwrite old p [] = old
overwrite old p (x ∷ xs) = overwrite (set old p x) (p + 1) xs

-- `rawWriteBytes`. Behind the end it inserts, which moves the bytes from the position on back.
unfoldable pub raw_write_bytes : List ℕ → ByteBuffer → ByteBuffer
unfolding overwrite
raw_write_bytes bs b = record {
  bytes =
      if ltb (length b.bytes) (add_size b.position (length bs))
      then take b.position b.bytes ++ (bs ++ drop b.position b.bytes)
      else overwrite b.bytes b.position bs;
  position = add_size b.position (length bs);
}

-- `boundsCheck`.
unfoldable pub bounds_check : ℕ → Reader (Unit {0})
bounds_check count b =
    if ltb (length b.bytes) (add_size b.position count) then failed not_enough_data b else done tt b

abbrev pub advance : ℕ → ByteBuffer → ByteBuffer
advance n b = record b { position = add_size b.position n }

unfoldable pub skip : ℕ → Reader (Unit {0})
unfolding bounds_check
skip n = bounds_check n >> λ b. done tt (advance n b)

-- `readBytesInto`: the bytes that `memcpy` copies out.
unfoldable pub read_bytes_into : ℕ → Reader (List ℕ)
unfolding bounds_check
read_bytes_into n = bounds_check n >> λ b. done (take n (drop b.position b.bytes)) (advance n b)

-- `rawRead<T>` for a T of n bytes.
unfoldable pub raw_read : ℕ → Reader ℕ
unfolding bounds_check of_bytes_le
raw_read n =
    bounds_check n >> λ b. done (of_bytes_le (take n (drop b.position b.bytes))) (advance n b)

unfoldable pub raw_write : ℕ → ℕ → ByteBuffer → ByteBuffer
unfolding raw_write_bytes
raw_write n v b = raw_write_bytes (bytes_le n v) b

unfoldable pub read_primitive : ℕ → Reader ℕ
unfolding raw_read
read_primitive n = do v ← raw_read n; pure (maybe_byteswap n v)

unfoldable pub write_primitive : ℕ → ℕ → ByteBuffer → ByteBuffer
unfolding raw_write
write_primitive n v b = raw_write n (maybe_byteswap n v) b

-- The length prefix: `length_t` is `uint16_t`, and `writeLength` casts.
unfoldable pub read_length : Reader ℕ
unfolding read_primitive
read_length = read_primitive 2

unfoldable pub write_length : ℕ → ByteBuffer → ByteBuffer
unfolding write_primitive
write_length n b = write_primitive 2 (n % 2 ^ 16) b

unfoldable read_length_check : ℕ → Reader ℕ
unfolding read_length
read_length_check elemsize = do
  len ← read_length
  λ b.
      if ltb (length b.bytes) (add_size b.position (len * elemsize % size_mod))
      then failed length_prefix_too_long b
      else done len b

-- `readBool` copies a byte into a `bool`; any byte but 0 counts as true.
unfoldable pub read_bool : Reader Bool
unfolding read_primitive
read_bool = do v ← read_primitive 1; pure (not (v == 0))

unfoldable pub write_bool : Bool → ByteBuffer → ByteBuffer
unfolding write_primitive
write_bool x b = write_primitive 1 (if x then 1 else 0) b
