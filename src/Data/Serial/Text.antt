-- ===== src/Data/Serial/Text.antt =====
-- src/data/bytebuffer.cpp: `std::string`, a list of bytes behind its length, and `bytearray<N>`,
-- a list of N bytes.
use globed.Common.{
  ℕ, ◌+◌, ◌^◌, ◌<◌, ◌≡◌, refl, ap, ◌∙◌, List, [], ◌∷◌, ◌++◌, arith, length, length-append, take,
  drop, All,
}
use globed.Data.Words.{IsByte, bytes_be, bytes_le}
use globed.Data.Buffer.{
  ByteBuffer, Reader, done, ◌>>=◌, ◌>>◌, bounds_check, advance, read_bytes_into, raw_write_bytes,
  read_length, write_length,
}
use globed.Data.Buffer.Cursor.{full, at, read_bytes_into-at}
use globed.Data.Buffer.Writes.{raw_write_bytes-full}
use globed.Data.Buffer.Safety.{
  IsSafe, read_length-IsSafe, read_bytes_into-IsSafe, and_then-Forward_of, read_length-lt,
}
use globed.Data.Serial.{Serial, read-at_then, write-full_then}
use globed.Data.Serial.Numbers.{u8}
use globed.Data.Serial.Containers.{
  length_prefix, decode_items, wire_items, items-read, items-IsSafe,
}

unfoldable pub decode_string : Reader (List ℕ)
unfolding read_length bounds_check
decode_string = do
  n ← read_length
  bounds_check n
  λ b. done (take n (drop b.position b.bytes)) (advance n b)

unfoldable pub encode_string : List ℕ → ByteBuffer → ByteBuffer
unfolding write_length raw_write_bytes
encode_string s b = raw_write_bytes s (write_length (length s) b)

-- Bytes behind their number, which some other type's wire form carries.
module _ (p : Serial ℕ) (s : List ℕ) where
  pub prefixed-write :
      (bs : List ℕ)
      → length bs + length (p.wire (length s) ++ s) < 2 ^ 63
      → raw_write_bytes s (p.write (length s) (full bs)) ≡ full (bs ++ (p.wire (length s) ++ s))
  prefixed-write bs h =
      write-full_then p (length s) (raw_write_bytes s) bs s
        (omega (arith, length-append (p.wire (length s)) s))
        (raw_write_bytes-full (bs ++ p.wire (length s)) s (
          omega (arith, length-append (p.wire (length s)) s, length-append bs (p.wire (length s)))))

  pub prefixed-read :
      (m : ℕ → Reader (List ℕ)) (front rest : List ℕ)
      → m (length s) ≡ read_bytes_into (length s)
      → p.IsFit (length s)
      → length front + length (p.wire (length s) ++ s) < 2 ^ 63
      → (p.read >>= m) (at front ((p.wire (length s) ++ s) ++ rest))
        ≡ done s (at (front ++ (p.wire (length s) ++ s)) rest)
  prefixed-read m front rest e g h =
      read-at_then p (length s) m s front s rest g
        (omega (arith, length-append (p.wire (length s)) s))
        (ap (λ (r : Reader (List ℕ)). r (at (front ++ p.wire (length s)) (s ++ rest))) e
          ∙ read_bytes_into-at (length s) (front ++ p.wire (length s)) s rest refl (
              omega (
                arith,
                length-append (p.wire (length s)) s,
                length-append front (p.wire (length s)),
              )))

pub string-write :
    (s bs : List ℕ)
    → length bs + length (length_prefix.wire (length s) ++ s) < 2 ^ 63
    → encode_string s (full bs) ≡ full (bs ++ (length_prefix.wire (length s) ++ s))
unfolding encode_string length_prefix
string-write s bs h = prefixed-write length_prefix s bs h

pub string-read :
    (s front rest : List ℕ)
    → length s < 2 ^ 16
    → length front + length (length_prefix.wire (length s) ++ s) < 2 ^ 63
    → decode_string (at front ((length_prefix.wire (length s) ++ s) ++ rest))
      ≡ done s (at (front ++ (length_prefix.wire (length s) ++ s)) rest)
unfolding decode_string length_prefix read_bytes_into
string-read s front rest f h = prefixed-read length_prefix s read_bytes_into front rest refl f h

pub string-IsSafe : IsSafe decode_string
unfolding decode_string read_bytes_into
string-IsSafe b v =
    and_then-Forward_of b (read_length b) read_bytes_into v (read_length-IsSafe b v)
      λ n b' e v'. read_bytes_into-IsSafe n (omega (arith, read_length-lt b b' n e)) b' v'

unfoldable pub string : Serial (List ℕ)
unfolding decode_string encode_string length_prefix
string = record {
  read = decode_string;
  write = encode_string;
  wire = λ s. length_prefix.wire (length s) ++ s;
  IsFit = λ s. length s < 2 ^ 16;
  write-full = string-write;
  read-at = string-read;
  read-safe = string-IsSafe;
}

-- `MAKE_ARRAY_FUNCS(sz)`: the array is written raw, and read byte by byte.
unfoldable pub decode_bytearray : ℕ → Reader (List ℕ)
unfolding decode_items u8
decode_bytearray n = decode_items u8 n

wire_bytes : (bs : List ℕ) → All IsByte bs → wire_items u8 bs ≡ bs
unfolding wire_items u8 bytes_be bytes_le
wire_bytes [] h = refl
wire_bytes (b ∷ bs) h = ground (arith, wire_bytes bs h.1)

pub bytearray-read :
    (n : ℕ) (a front rest : List ℕ)
    → (length a ≡ n) × All IsByte a
    → length front + length a < 2 ^ 63
    → decode_bytearray n (at front (a ++ rest)) ≡ done a (at (front ++ a) rest)
unfolding decode_bytearray u8
bytearray-read n a front rest f h =
    let e = wire_bytes a f.1 in rw (← f.0) (rw e at (items-read u8 a front rest f.1 (rw e h)))

unfoldable pub bytearray : ℕ → Serial (List ℕ)
unfolding decode_bytearray raw_write_bytes
bytearray n = record {
  read = decode_bytearray n;
  write = raw_write_bytes;
  wire = λ a. a;
  IsFit = λ a. (length a ≡ n) × All IsByte a;
  write-full = λ a bs h. raw_write_bytes-full bs a (omega arith);
  read-at = bytearray-read n;
  read-safe = unfold decode_bytearray in items-IsSafe u8 n;
}
