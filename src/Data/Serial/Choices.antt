-- ===== src/Data/Serial/Choices.antt =====
-- src/data/bytebuffer.hpp: `std::optional<T>` and `Either<T, Y>` (src/data/types/basic/either.hpp),
-- which a `bool` tells apart.
use globed.Common.{
  ℕ, ◌+◌, ◌^◌, ◌<◌, ◌≡◌, refl, ap, ◌∙◌, Bool, true, false, Option, none, some, List, ◌++◌, arith,
  length, length-append,
}
use globed.Data.Buffer.{ByteBuffer, Reader, done, ◌>>=◌, pure, and_then, read_bool, write_bool}
use globed.Data.Buffer.Cursor.{full, at}
use globed.Data.Buffer.Safety.{IsSafe, Forward-refl, >>=-IsSafe, read_bool-IsSafe}
use globed.Data.Serial.{Serial, read-at_then, write-full_then}
use globed.Data.Serial.Numbers.{boolean}

-- The tag in front of a value, or alone.
write_tag :
    (x : Bool) (bs : List ℕ)
    → length bs + length (boolean.wire x) < 2 ^ 63
    → write_bool x (full bs) ≡ full (bs ++ boolean.wire x)
unfolding boolean
write_tag x bs h = boolean.write-full x bs h

read_tag :
    {C : Type 0} (x : Bool) (m : Bool → Reader C) (c : C) (front rest : List ℕ)
    → length front + length (boolean.wire x) < 2 ^ 63
    → m x ≡ pure c
    → (read_bool >>= m) (at front (boolean.wire x ++ rest))
      ≡ done c (at (front ++ boolean.wire x) rest)
unfolding boolean
read_tag x m c front rest h e =
    rw (boolean.read-at x front rest tt h, and_then)
      (ap (λ k. k (at (front ++ boolean.wire x) rest)) e)

module _ {A : Type 0} (x : Bool) (s : Serial A) (v : A) where
  write_tag_then :
      (bs : List ℕ)
      → length bs + length (boolean.wire x ++ s.wire v) < 2 ^ 63
      → s.write v (write_bool x (full bs)) ≡ full (bs ++ (boolean.wire x ++ s.wire v))
  unfolding boolean
  write_tag_then = sequel boolean
    where
      sequel :
          (p : Serial Bool) (bs : List ℕ)
          → length bs + length (p.wire x ++ s.wire v) < 2 ^ 63
          → s.write v (p.write x (full bs)) ≡ full (bs ++ (p.wire x ++ s.wire v))
      sequel p bs h =
          write-full_then p x (s.write v) bs (s.wire v)
            (omega (arith, length-append (p.wire x) (s.wire v)))
            (s.write-full v (bs ++ p.wire x)
              (omega (arith, length-append (p.wire x) (s.wire v), length-append bs (p.wire x))))

  read_tag_then :
      {C : Type 0} (m : Bool → Reader C) (k : A → C) (front rest : List ℕ)
      → s.IsFit v
      → length front + length (boolean.wire x ++ s.wire v) < 2 ^ 63
      → m x ≡ (s.read >>= λ a. pure (k a))
      → (read_bool >>= m) (at front ((boolean.wire x ++ s.wire v) ++ rest))
        ≡ done (k v) (at (front ++ (boolean.wire x ++ s.wire v)) rest)
  unfolding boolean
  read_tag_then m k front rest f h e = sequel boolean tt h
    where
      sequel :
          (p : Serial Bool)
          → p.IsFit x
          → length front + length (p.wire x ++ s.wire v) < 2 ^ 63
          → (p.read >>= m) (at front ((p.wire x ++ s.wire v) ++ rest))
            ≡ done (k v) (at (front ++ (p.wire x ++ s.wire v)) rest)
      sequel p g h =
          read-at_then p x m (k v) front (s.wire v) rest g
            (omega (arith, length-append (p.wire x) (s.wire v)))
            (ap (λ r. r (at (front ++ p.wire x) (s.wire v ++ rest))) e
              ∙ rw (
                s.read-at v (front ++ p.wire x) rest f (
                    omega
                      (arith, length-append (p.wire x) (s.wire v), length-append front (p.wire x))),
                and_then,
              ))

-- `pcDecodeOptional`, `pcEncodeOptional`.
module _ {A : Type 0} (s : Serial A) where
  unfoldable pub decode_optional : Reader (Option A)
  unfolding read_bool
  decode_optional = do
    present ← read_bool
    elim present [ true ↦ (do v ← s.read; pure (some v)) | false ↦ pure none ]

  unfoldable pub encode_optional : Option A → ByteBuffer → ByteBuffer
  unfolding write_bool
  encode_optional none b = write_bool false b
  encode_optional (some v) b = s.write v (write_bool true b)

  abbrev wire_optional : Option A → List ℕ
  wire_optional none = boolean.wire false
  wire_optional (some v) = boolean.wire true ++ s.wire v

  abbrev pub IsFitOptional : Option A → Type 0
  IsFitOptional none = Unit
  IsFitOptional (some v) = s.IsFit v

  pub optional-write :
      (o : Option A) (bs : List ℕ)
      → length bs + length (wire_optional o) < 2 ^ 63
      → encode_optional o (full bs) ≡ full (bs ++ wire_optional o)
  unfolding encode_optional
  optional-write none bs h = write_tag false bs h
  optional-write (some v) bs h = write_tag_then true s v bs h

  -- An optional whose value fits the wire is read back from its presence byte and its value, and
  -- what follows is left.
  pub optional-read :
      (o : Option A) (front rest : List ℕ)
      → IsFitOptional o
      → length front + length (wire_optional o) < 2 ^ 63
      → decode_optional (at front (wire_optional o ++ rest))
        ≡ done o (at (front ++ wire_optional o) rest)
  unfolding decode_optional
  optional-read none front rest f h = read_tag false _ none front rest h refl
  optional-read (some v) front rest f h = read_tag_then true s v _ some front rest f h refl

  pub optional-IsSafe : IsSafe decode_optional
  unfolding decode_optional
  optional-IsSafe = >>=-IsSafe read_bool _ read_bool-IsSafe (elim [
    | true ↦ >>=-IsSafe s.read _ s.read-safe (λ a b v. Forward-refl v)
    | false ↦ λ b v. Forward-refl v
  ])

  unfoldable pub optional : Serial (Option A)
  unfolding decode_optional encode_optional
  optional = record {
    read = decode_optional;
    write = encode_optional;
    wire = wire_optional;
    IsFit = IsFitOptional;
    write-full = optional-write;
    read-at = optional-read;
    read-safe = optional-IsSafe;
  }

pub data Either (A B : Type 0) : Type 0 where
  first : A → Either A B
  second : B → Either A B

-- `pcDecodeEither`, `pcEncodeEither`.
module _ {A B : Type 0} (s : Serial A) (t : Serial B) where
  unfoldable pub decode_either : Reader (Either A B)
  unfolding read_bool
  decode_either = do
    is_first ← read_bool
    elim is_first [
      | true ↦ (do v ← s.read; pure (first v))
      | false ↦ (do v ← t.read; pure (second v))
    ]

  unfoldable pub encode_either : Either A B → ByteBuffer → ByteBuffer
  unfolding write_bool
  encode_either (first v) b = s.write v (write_bool true b)
  encode_either (second v) b = t.write v (write_bool false b)

  abbrev wire_either : Either A B → List ℕ
  wire_either (first v) = boolean.wire true ++ s.wire v
  wire_either (second v) = boolean.wire false ++ t.wire v

  abbrev IsFitEither : Either A B → Type 0
  IsFitEither (first v) = s.IsFit v
  IsFitEither (second v) = t.IsFit v

  pub either-write :
      (x : Either A B) (bs : List ℕ)
      → length bs + length (wire_either x) < 2 ^ 63
      → encode_either x (full bs) ≡ full (bs ++ wire_either x)
  unfolding encode_either
  either-write (first v) bs h = write_tag_then true s v bs h
  either-write (second v) bs h = write_tag_then false t v bs h

  -- Either side of an `Either`, where it fits the wire, is read back as that side, and what
  -- follows is left.
  pub either-read :
      (x : Either A B) (front rest : List ℕ)
      → IsFitEither x
      → length front + length (wire_either x) < 2 ^ 63
      → decode_either (at front (wire_either x ++ rest)) ≡ done x (at (front ++ wire_either x) rest)
  unfolding decode_either
  either-read (first v) front rest f h = read_tag_then true s v _ first front rest f h refl
  either-read (second v) front rest f h = read_tag_then false t v _ second front rest f h refl

  pub either-IsSafe : IsSafe decode_either
  unfolding decode_either
  either-IsSafe = >>=-IsSafe read_bool _ read_bool-IsSafe (elim [
    | true ↦ >>=-IsSafe s.read _ s.read-safe (λ a b v. Forward-refl v)
    | false ↦ >>=-IsSafe t.read _ t.read-safe (λ a b v. Forward-refl v)
  ])

  unfoldable pub either : Serial (Either A B)
  unfolding decode_either encode_either
  either = record {
    read = decode_either;
    write = encode_either;
    wire = wire_either;
    IsFit = IsFitEither;
    write-full = either-write;
    read-at = either-read;
    read-safe = either-IsSafe;
  }
