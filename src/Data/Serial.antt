-- ===== src/Data/Serial.antt =====
-- src/data/bytebuffer.hpp, `readValue<T>` and `writeValue<T>`: what it takes to be serializable.
-- The C++ templates choose the reader and the writer by type; here they come as a value of
-- `Serial A`, with the bytes on the wire (`wire`), the values that these can hold (`IsFit`), and
-- the laws that tie these together.
pub mod Numbers
pub mod Containers
pub mod Choices
pub mod Text
pub mod Members
pub mod Enums
use globed.Common.{
  ℕ, ◌+◌, ◌^◌, ◌<◌, ◌≡◌, sym, ap, ◌∙◌, List, [], ◌++◌, arith, length, append-nil, append_assoc,
}
use globed.Data.Buffer.{ByteBuffer, Reader, done, and_then, ◌>>=◌, pure, of_bytes}
use globed.Data.Buffer.Cursor.{full, at}
use globed.Data.Buffer.Safety.{IsSafe, Forward-refl, >>=-IsSafe}

pub record Serial (A : Type 0) : Type 1 where
  pub read : Reader A
  pub write : A → ByteBuffer → ByteBuffer
  pub wire : A → List ℕ
  pub IsFit : A → Type 0
  -- A write at the end appends the wire form.
  pub write-full :
      (a : A) (bs : List ℕ)
      → length bs + length (wire a) < 2 ^ 63
      → write a (full bs) ≡ full (bs ++ wire a)
  -- A read takes the wire form, and leaves what follows it.
  pub read-at :
      (a : A) (front rest : List ℕ)
      → IsFit a
      → length front + length (wire a) < 2 ^ 63
      → read (at front (wire a ++ rest)) ≡ done a (at (front ++ wire a) rest)
  -- On any input a read stays in the buffer.
  pub read-safe : IsSafe read

-- A type that is read and written as another: a cast, or a struct as the row of its members.
module _ {A B : Type 0} (s : Serial A) (to : B → A) (from : A → B) (Fit : B → Type 0)
    (to-IsFit : (b : B) → Fit b → s.IsFit (to b))
    (from-to : (b : B) → Fit b → from (to b) ≡ b) where
  pub read_converted : Reader B
  read_converted = do a ← s.read; pure (from a)

  pub read_converted-at :
      (b : B) (front rest : List ℕ)
      → Fit b
      → length front + length (s.wire (to b)) < 2 ^ 63
      → read_converted (at front (s.wire (to b) ++ rest))
        ≡ done b (at (front ++ s.wire (to b)) rest)
  unfolding read_converted
  read_converted-at b front rest f h =
      rw (s.read-at (to b) front rest (to-IsFit b f) h, and_then) (rw (from-to b f))

  pub read_converted-IsSafe : IsSafe read_converted
  unfolding read_converted
  read_converted-IsSafe = >>=-IsSafe s.read _ s.read-safe (λ a b v. Forward-refl v)

  unfoldable pub converted : Serial B
  unfolding read_converted
  converted = record {
    read = read_converted;
    write = λ b. s.write (to b);
    wire = λ b. s.wire (to b);
    IsFit = Fit;
    write-full = λ b. s.write-full (to b);
    read-at = read_converted-at;
    read-safe = read_converted-IsSafe;
  }

-- One more piece on the wire: what is read, and written, first and then.
module _ {A C : Type 0} (s : Serial A) (a : A) where
  pub read-at_then :
      (m : A → Reader C) (c : C) (front w rest : List ℕ)
      → s.IsFit a
      → length front + length (s.wire a) < 2 ^ 63
      → m a (at (front ++ s.wire a) (w ++ rest)) ≡ done c (at ((front ++ s.wire a) ++ w) rest)
      → (s.read >>= m) (at front ((s.wire a ++ w) ++ rest))
        ≡ done c (at (front ++ (s.wire a ++ w)) rest)
  read-at_then m c front w rest f h next = rw (append_assoc (s.wire a) w rest) (
      rw (s.read-at a front (w ++ rest) f h, and_then)
        (next ∙ ap (λ bs. done c (at bs rest)) (append_assoc front (s.wire a) w)))

module _ {A : Type 0} (s : Serial A) (a : A) where
  pub write-full_then :
      (k : ByteBuffer → ByteBuffer) (bs w : List ℕ)
      → length bs + length (s.wire a) < 2 ^ 63
      → k (full (bs ++ s.wire a)) ≡ full ((bs ++ s.wire a) ++ w)
      → k (s.write a (full bs)) ≡ full (bs ++ (s.wire a ++ w))
  write-full_then k bs w h next =
      rw (s.write-full a bs h) (next ∙ ap full (append_assoc bs (s.wire a) w))

-- What stands alone in a buffer is read back from its start.
pub read-wire :
    {A : Type 0} (s : Serial A) (a : A)
    → s.IsFit a
    → length (s.wire a) < 2 ^ 63
    → s.read (of_bytes (s.wire a)) ≡ done a (full (s.wire a))
unfolding of_bytes
read-wire s a f h =
    ap (λ bs. s.read (at [] bs)) (sym (append-nil (s.wire a)))
    ∙ s.read-at a [] [] f (omega (arith, h))
    ∙ ap (λ bs. done a (record { bytes = bs; position = length (s.wire a) }))
        (append-nil (s.wire a))
