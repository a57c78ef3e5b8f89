-- ===== src/Data/Serial/Numbers.antt =====
-- src/data/bytebuffer.hpp, src/data/bytebuffer.cpp: `readPrimitive<T>`, `writePrimitive<T>` and the
-- `MAKE_METHOD` lines. Floats are bit patterns.
use native.Mathlib.Nat.{mod-eq_of_lt}
use globed.Common.{
  ℕ, ◌+◌, ◌-◌, ◌/◌, ◌%◌, ◌^◌, ◌≤◌, ◌<◌, ◌≡◌, Bool, not, ◌==◌, List, ◌++◌, arith, length, ltb,
  if◌then◌else◌,
}
use globed.Common.Int.{ℤ, pos, negsuc}
use globed.Data.Words.{bytes_be, length-bytes_be}
use globed.Data.Buffer.{done, and_then, read_primitive, write_primitive, read_bool, write_bool}
use globed.Data.Buffer.Cursor.{full, at, read_primitive-at}
use globed.Data.Buffer.Writes.{write_primitive-full}
use globed.Data.Buffer.Safety.{read_primitive-IsSafe, read_bool-IsSafe}
use globed.Data.Serial.{Serial, converted}

-- `uint8_t` to `uint64_t`, `float` and `double`.
unfoldable pub unsigned : (n : ℕ) → n ≤ 8 → Serial ℕ
unsigned n h = record {
  read = read_primitive n;
  write = write_primitive n;
  wire = bytes_be n;
  IsFit = λ v. v < 256 ^ n;
  write-full = λ v bs s. write_primitive-full n v bs (omega (arith, length-bytes_be n v));
  read-at =
      λ v front rest f s. read_primitive-at n v front rest f (omega (arith, length-bytes_be n v));
  read-safe = read_primitive-IsSafe n (omega arith);
}

unfoldable pub u8 : Serial ℕ
unfolding unsigned
u8 = unsigned 1 (omega arith)

unfoldable pub u16 : Serial ℕ
unfolding unsigned
u16 = unsigned 2 (omega arith)

unfoldable pub u32 : Serial ℕ
unfolding unsigned
u32 = unsigned 4 (omega arith)

unfoldable u64 : Serial ℕ
unfolding unsigned
u64 = unsigned 8 (omega arith)

unfoldable pub f32 : Serial ℕ
unfolding unsigned
f32 = unsigned 4 (omega arith)

unfoldable f64 : Serial ℕ
unfolding unsigned
f64 = unsigned 8 (omega arith)

-- Two's complement in n bytes.
unfoldable pub pattern_of : ℕ → ℤ → ℕ
pattern_of n (pos v) = v % 256 ^ n
pattern_of n (negsuc v) = 256 ^ n - v % 256 ^ n - 1

unfoldable pub of_pattern : ℕ → ℕ → ℤ
of_pattern n p = if ltb p (256 ^ n / 2) then pos p else negsuc (256 ^ n - p - 1)

abbrev pub IsSigned : ℕ → ℤ → Type 0
IsSigned n (pos v) = v < 256 ^ n / 2
IsSigned n (negsuc v) = v < 256 ^ n / 2

pub pattern_of-lt : (n : ℕ) (z : ℤ) → IsSigned n z → pattern_of n z < 256 ^ n
unfolding pattern_of
pattern_of-lt n (pos v) h = rw (mod-eq_of_lt {n = v} {m = 256 ^ n} (omega arith)) (omega arith)
pattern_of-lt n (negsuc v) h = omega arith

-- A signed number in the range of n bytes is given back by its two's complement pattern.
pub of_pattern-pattern_of : (n : ℕ) (z : ℤ) → IsSigned n z → of_pattern n (pattern_of n z) ≡ z
unfolding of_pattern pattern_of
of_pattern-pattern_of n (pos v) h =
    rw (mod-eq_of_lt {n = v} {m = 256 ^ n} (omega arith)) (ground arith)
of_pattern-pattern_of n (negsuc v) h =
    rw (mod-eq_of_lt {n = v} {m = 256 ^ n} (omega arith)) (ground arith)

-- `int8_t` to `int64_t`.
unfoldable pub signed : (n : ℕ) → n ≤ 8 → Serial ℤ
unfolding converted pattern_of of_pattern unsigned
signed n h =
    converted (unsigned n h) (pattern_of n) (of_pattern n) (IsSigned n) (pattern_of-lt n)
      (of_pattern-pattern_of n)

unfoldable i8 : Serial ℤ
unfolding signed
i8 = signed 1 (omega arith)

unfoldable pub i16 : Serial ℤ
unfolding signed
i16 = signed 2 (omega arith)

unfoldable pub i32 : Serial ℤ
unfolding signed
i32 = signed 4 (omega arith)

unfoldable pub i64 : Serial ℤ
unfolding signed
i64 = signed 8 (omega arith)

pub number_of_bool : Bool → ℕ
number_of_bool x = if x then 1 else 0

bool-fit : (x : Bool) → number_of_bool x < 256 ^ 1
unfolding number_of_bool
bool-fit x = ground arith

bool-back : (x : Bool) → not (number_of_bool x == 0) ≡ x
unfolding number_of_bool
bool-back x = ground arith

pub bool-write :
    (x : Bool) (bs : List ℕ)
    → length bs + length (bytes_be 1 (number_of_bool x)) < 2 ^ 63
    → write_bool x (full bs) ≡ full (bs ++ bytes_be 1 (number_of_bool x))
unfolding write_bool number_of_bool
bool-write x bs h =
    write_primitive-full 1 (number_of_bool x) bs
      (omega (arith, length-bytes_be 1 (number_of_bool x)))

pub bool-read :
    (x : Bool) (front rest : List ℕ)
    → Unit {0}
    → length front + length (bytes_be 1 (number_of_bool x)) < 2 ^ 63
    → read_bool (at front (bytes_be 1 (number_of_bool x) ++ rest))
      ≡ done x (at (front ++ bytes_be 1 (number_of_bool x)) rest)
unfolding read_bool
bool-read x front rest f h =
    rw
      (
        read_primitive-at 1 (number_of_bool x) front rest (bool-fit x)
            (omega (arith, length-bytes_be 1 (number_of_bool x))),
        and_then,
      )
      (rw (bool-back x))

-- `bool`.
unfoldable pub boolean : Serial Bool
unfolding number_of_bool
boolean = record {
  read = read_bool;
  write = write_bool;
  wire = λ x. bytes_be 1 (number_of_bool x);
  IsFit = λ _. Unit;
  write-full = bool-write;
  read-at = bool-read;
  read-safe = read_bool-IsSafe;
}
