-- ===== src/Data/Serial/Enums.antt =====
-- src/data/bytebuffer.hpp, `readEnum` and `writeEnum`.
use globed.Common.{
  ℕ, ◌+◌, ◌^◌, ◌≤◌, ◌<◌, ◌≡◌, Option, none, some, List, [], ◌∷◌, ◌++◌, arith, length, ◌==◌,
  if◌then◌else◌,
}
use globed.Data.Words.{bytes_be, length-bytes_be}
use globed.Data.Buffer.{
  ByteBuffer, Reader, done, ◌>>=◌, pure, fail, and_then, read_primitive, write_primitive,
  invalid_enum_value,
}
use globed.Data.Buffer.Cursor.{full, at, read_primitive-at}
use globed.Data.Buffer.Writes.{write_primitive-full}
use globed.Data.Buffer.Safety.{IsSafe, Forward-refl, >>=-IsSafe, read_primitive-IsSafe}
use globed.Data.Serial.{Serial}

-- E has the described enumerators, over an underlying type of n bytes.
module _ {E : Type 0} (n : ℕ) (enumerators : List E) (underlying : E → ℕ) where
  unfoldable pub find_enumerator : ℕ → List E → Option E
  find_enumerator u [] = none
  find_enumerator u (e ∷ es) = if underlying e == u then some e else find_enumerator u es

  -- `static_cast<E>(underlying)` for a described value, an error for any other.
  unfoldable cast_enum : Option E → Reader E
  cast_enum none = fail invalid_enum_value
  cast_enum (some e) = pure e

  unfoldable pub read_enum : Reader E
  unfolding find_enumerator cast_enum read_primitive
  read_enum = do u ← read_primitive n; cast_enum (find_enumerator u enumerators)

  unfoldable pub write_enum : E → ByteBuffer → ByteBuffer
  unfolding write_primitive
  write_enum e b = write_primitive n (underlying e) b

  -- The enumerator that is found for a number has that number for its underlying value, whatever the
  -- enum lists: no unlisted number is cast to an enumerator.
  find_enumerator-underlying :
      (u : ℕ) (es : List E) (e : E) → find_enumerator u es ≡ some e → underlying e ≡ u
  unfolding find_enumerator
  find_enumerator-underlying u [] e h = ground arith
  find_enumerator-underlying u (x ∷ es) e h = ground (arith, find_enumerator-underlying u es e)

  cast-IsSafe : (o : Option E) → IsSafe (cast_enum o)
  unfolding cast_enum
  cast-IsSafe none b v = Forward-refl v
  cast-IsSafe (some e) b v = Forward-refl v

  module _ (small : n ≤ 8) (fits : (e : E) → underlying e < 256 ^ n)
      (found : (e : E) → find_enumerator (underlying e) enumerators ≡ some e) where
    pub enum-write :
        (e : E) (bs : List ℕ)
        → length bs + length (bytes_be n (underlying e)) < 2 ^ 63
        → write_enum e (full bs) ≡ full (bs ++ bytes_be n (underlying e))
    unfolding write_enum
    enum-write e bs h =
        write_primitive-full n (underlying e) bs (omega (arith, length-bytes_be n (underlying e)))

    pub enum-read :
        (e : E) (front rest : List ℕ)
        → Unit {0}
        → length front + length (bytes_be n (underlying e)) < 2 ^ 63
        → read_enum (at front (bytes_be n (underlying e) ++ rest))
          ≡ done e (at (front ++ bytes_be n (underlying e)) rest)
    unfolding read_enum
    enum-read e front rest f h =
        rw
          (
            read_primitive-at n (underlying e) front rest (fits e)
                (omega (arith, length-bytes_be n (underlying e))),
            and_then,
          )
          (rw (found e, cast_enum))

    pub enum-IsSafe : IsSafe read_enum
    unfolding read_enum
    enum-IsSafe =
        >>=-IsSafe (read_primitive n) _ (read_primitive-IsSafe n (omega arith))
          (λ u. cast-IsSafe (find_enumerator u enumerators))

    unfoldable pub enum : Serial E
    unfolding read_enum write_enum
    enum = record {
      read = read_enum;
      write = write_enum;
      wire = λ e. bytes_be n (underlying e);
      IsFit = λ _. Unit;
      write-full = enum-write;
      read-at = enum-read;
      read-safe = enum-IsSafe;
    }
