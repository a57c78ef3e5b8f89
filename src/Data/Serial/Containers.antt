-- ===== src/Data/Serial/Containers.antt =====
-- src/data/bytebuffer.hpp: `std::pair<A, B>` and `std::vector<T>`.
use globed.Common.{
  ℕ, zero, suc, ◌+◌, ◌%◌, ◌^◌, ◌<◌, ◌≡◌, List, [], ◌∷◌, ◌++◌, arith, length, length-append,
  append-nil, All,
}
use globed.Data.Words.{bytes_be, length-bytes_be}
use globed.Data.Buffer.{ByteBuffer, Reader, done, ◌>>=◌, pure, and_then, read_length, write_length}
use globed.Data.Buffer.Cursor.{full, at, read_primitive-at}
use globed.Data.Buffer.Writes.{write_primitive-full}
use globed.Data.Buffer.Safety.{IsSafe, Forward-refl, >>=-IsSafe, read_length-IsSafe}
use globed.Data.Serial.{Serial, read-at_then, write-full_then}

-- The length prefix of a container or a text. `writeLength` drops the bits above the sixteenth.
pub length-write :
    (n : ℕ) (bs : List ℕ)
    → length bs + length (bytes_be 2 (n % 2 ^ 16)) < 2 ^ 63
    → write_length n (full bs) ≡ full (bs ++ bytes_be 2 (n % 2 ^ 16))
unfolding write_length
length-write n bs h =
    write_primitive-full 2 (n % 2 ^ 16) bs (omega (arith, length-bytes_be 2 (n % 2 ^ 16)))

pub length-read :
    (n : ℕ) (front rest : List ℕ)
    → n < 2 ^ 16
    → length front + length (bytes_be 2 (n % 2 ^ 16)) < 2 ^ 63
    → read_length (at front (bytes_be 2 (n % 2 ^ 16) ++ rest))
      ≡ done n (at (front ++ bytes_be 2 (n % 2 ^ 16)) rest)
unfolding read_length
length-read n front rest f h =
    let e : n % 2 ^ 16 ≡ n = omega arith in
    rw e (read_primitive-at 2 n front rest f (omega (arith, length-bytes_be 2 (n % 2 ^ 16))))

unfoldable pub length_prefix : Serial ℕ
length_prefix = record {
  read = read_length;
  write = write_length;
  wire = λ n. bytes_be 2 (n % 2 ^ 16);
  IsFit = λ n. n < 2 ^ 16;
  write-full = length-write;
  read-at = length-read;
  read-safe = read_length-IsSafe;
}

-- `pcDecodePair`, `pcEncodePair`.
module _ {A B : Type 0} (s : Serial A) (t : Serial B) where
  unfoldable pub decode_pair : Reader (A × B)
  decode_pair = do a ← s.read; b ← t.read; pure (a, b)

  unfoldable pub encode_pair : A × B → ByteBuffer → ByteBuffer
  encode_pair (a, b) buf = t.write b (s.write a buf)

  pub pair-write :
      (p : A × B) (bs : List ℕ)
      → length bs + length (s.wire p.0 ++ t.wire p.1) < 2 ^ 63
      → encode_pair p (full bs) ≡ full (bs ++ (s.wire p.0 ++ t.wire p.1))
  unfolding encode_pair
  pair-write (a, b) bs h =
      write-full_then s a (t.write b) bs (t.wire b)
        (omega (arith, length-append (s.wire a) (t.wire b)))
        (t.write-full b (bs ++ s.wire a)
          (omega (arith, length-append (s.wire a) (t.wire b), length-append bs (s.wire a))))

  pub pair-read :
      (p : A × B) (front rest : List ℕ)
      → s.IsFit p.0 × t.IsFit p.1
      → length front + length (s.wire p.0 ++ t.wire p.1) < 2 ^ 63
      → decode_pair (at front ((s.wire p.0 ++ t.wire p.1) ++ rest))
        ≡ done p (at (front ++ (s.wire p.0 ++ t.wire p.1)) rest)
  unfolding decode_pair
  pair-read (a, b) front rest f h =
      read-at_then s a _ (a, b) front (t.wire b) rest f.0
        (omega (arith, length-append (s.wire a) (t.wire b)))
        (rw (
          t.read-at b (front ++ s.wire a) rest f.1
              (omega (arith, length-append (s.wire a) (t.wire b), length-append front (s.wire a))),
          and_then,
        ))

  pub pair-IsSafe : IsSafe decode_pair
  unfolding decode_pair
  pair-IsSafe =
      >>=-IsSafe s.read _ s.read-safe
        (λ a. >>=-IsSafe t.read _ t.read-safe (λ b c v. Forward-refl v))

  unfoldable pub pair : Serial (A × B)
  unfolding decode_pair encode_pair
  pair = record {
    read = decode_pair;
    write = encode_pair;
    wire = λ p. s.wire p.0 ++ t.wire p.1;
    IsFit = λ p. s.IsFit p.0 × t.IsFit p.1;
    write-full = pair-write;
    read-at = pair-read;
    read-safe = pair-IsSafe;
  }

-- `pcDecodeVector`, `pcEncodeVector`.
module _ {A : Type 0} (s : Serial A) where
  unfoldable pub decode_items : ℕ → Reader (List A)
  decode_items zero = pure []
  decode_items (suc n) = do v ← s.read; vs ← decode_items n; pure (v ∷ vs)

  unfoldable pub encode_items : List A → ByteBuffer → ByteBuffer
  encode_items [] b = b
  encode_items (v ∷ vs) b = encode_items vs (s.write v b)

  unfoldable pub wire_items : List A → List ℕ
  wire_items [] = []
  wire_items (v ∷ vs) = s.wire v ++ wire_items vs

  unfoldable pub decode_vector : Reader (List A)
  unfolding decode_items read_length
  decode_vector = do n ← read_length; decode_items n

  unfoldable pub encode_vector : List A → ByteBuffer → ByteBuffer
  unfolding encode_items write_length
  encode_vector vs b = encode_items vs (write_length (length vs) b)

  pub items-write :
      (vs : List A) (bs : List ℕ)
      → length bs + length (wire_items vs) < 2 ^ 63
      → encode_items vs (full bs) ≡ full (bs ++ wire_items vs)
  unfolding encode_items wire_items
  items-write [] bs h = rw (append-nil bs)
  items-write (v ∷ vs) bs h =
      write-full_then s v (encode_items vs) bs (wire_items vs)
        (omega (arith, length-append (s.wire v) (wire_items vs)))
        (items-write vs (bs ++ s.wire v)
          (omega (arith, length-append (s.wire v) (wire_items vs), length-append bs (s.wire v))))

  pub items-read :
      (vs : List A) (front rest : List ℕ)
      → All s.IsFit vs
      → length front + length (wire_items vs) < 2 ^ 63
      → decode_items (length vs) (at front (wire_items vs ++ rest))
        ≡ done vs (at (front ++ wire_items vs) rest)
  unfolding decode_items wire_items
  items-read [] front rest f h = rw (append-nil front)
  items-read (v ∷ vs) front rest f h =
      read-at_then s v _ (v ∷ vs) front (wire_items vs) rest f.0
        (omega (arith, length-append (s.wire v) (wire_items vs)))
        (rw (
          items-read vs (front ++ s.wire v) rest f.1 (
              omega
                (arith, length-append (s.wire v) (wire_items vs), length-append front (s.wire v))),
          and_then,
        ))

  pub items-IsSafe : (n : ℕ) → IsSafe (decode_items n)
  unfolding decode_items
  items-IsSafe zero = λ b v. Forward-refl v
  items-IsSafe (suc n) =
      >>=-IsSafe s.read _ s.read-safe
        (λ a. >>=-IsSafe (decode_items n) _ (items-IsSafe n) (λ vs b v. Forward-refl v))

  -- A known number of items, without a length.
  unfoldable pub items : ℕ → Serial (List A)
  unfolding decode_items encode_items wire_items
  items n = record {
    read = decode_items n;
    write = encode_items;
    wire = wire_items;
    IsFit = λ vs. (length vs ≡ n) × All s.IsFit vs;
    write-full = items-write;
    read-at = λ vs front rest f h. rw (← f.0) (items-read vs front rest f.1 h);
    read-safe = items-IsSafe n;
  }

  pub vector-write :
      (vs : List A) (bs : List ℕ)
      → length bs + length (length_prefix.wire (length vs) ++ wire_items vs) < 2 ^ 63
      → encode_vector vs (full bs) ≡ full (bs ++ (length_prefix.wire (length vs) ++ wire_items vs))
  unfolding encode_vector length_prefix
  vector-write vs bs h = sequel length_prefix h
    where
      sequel :
          (p : Serial ℕ)
          → length bs + length (p.wire (length vs) ++ wire_items vs) < 2 ^ 63
          → encode_items vs (p.write (length vs) (full bs))
            ≡ full (bs ++ (p.wire (length vs) ++ wire_items vs))
      sequel p h =
          write-full_then p (length vs) (encode_items vs) bs (wire_items vs)
            (omega (arith, length-append (p.wire (length vs)) (wire_items vs)))
            (items-write vs (bs ++ p.wire (length vs)) (
              omega (
                arith,
                length-append (p.wire (length vs)) (wire_items vs),
                length-append bs (p.wire (length vs)),
              )))

  -- A vector of at most 65535 items that fit is read back whole from its length and its items, and
  -- what follows is left.
  pub vector-read :
      (vs : List A) (front rest : List ℕ)
      → (length vs < 2 ^ 16) × All s.IsFit vs
      → length front + length (length_prefix.wire (length vs) ++ wire_items vs) < 2 ^ 63
      → decode_vector (at front ((length_prefix.wire (length vs) ++ wire_items vs) ++ rest))
        ≡ done vs (at (front ++ (length_prefix.wire (length vs) ++ wire_items vs)) rest)
  unfolding decode_vector length_prefix
  vector-read vs front rest f h = sequel length_prefix f.0 h
    where
      sequel :
          (p : Serial ℕ)
          → p.IsFit (length vs)
          → length front + length (p.wire (length vs) ++ wire_items vs) < 2 ^ 63
          → (p.read >>= decode_items) (at front ((p.wire (length vs) ++ wire_items vs) ++ rest))
            ≡ done vs (at (front ++ (p.wire (length vs) ++ wire_items vs)) rest)
      sequel p g h =
          read-at_then p (length vs) decode_items vs front (wire_items vs) rest g
            (omega (arith, length-append (p.wire (length vs)) (wire_items vs)))
            (items-read vs (front ++ p.wire (length vs)) rest f.1 (
              omega (
                arith,
                length-append (p.wire (length vs)) (wire_items vs),
                length-append front (p.wire (length vs)),
              )))

  pub vector-IsSafe : IsSafe decode_vector
  unfolding decode_vector
  vector-IsSafe = >>=-IsSafe read_length decode_items read_length-IsSafe items-IsSafe

  unfoldable pub vector : Serial (List A)
  unfolding decode_vector encode_vector length_prefix wire_items
  vector = record {
    read = decode_vector;
    write = encode_vector;
    wire = λ vs. length_prefix.wire (length vs) ++ wire_items vs;
    IsFit = λ vs. (length vs < 2 ^ 16) × All s.IsFit vs;
    write-full = vector-write;
    read-at = vector-read;
    read-safe = vector-IsSafe;
  }
