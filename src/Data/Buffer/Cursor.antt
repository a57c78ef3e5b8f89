-- ===== src/Data/Buffer/Cursor.antt =====
-- src/data/bytebuffer.cpp: reads at a place in the buffer, with the bytes ahead named.
use globed.Common.{
  ℕ, ◌+◌, ◌^◌, ◌≤◌, ◌<◌, ◌≡◌, ap, List, ◌++◌, arith, length, take, drop, length-append,
  take-append_length, drop-append_length, append_assoc,
}
use globed.Data.Words.{bytes_be, of_bytes_le, length-bytes_be, maybe_byteswap-of_bytes_be}
use globed.Data.Buffer.{
  ByteBuffer, done, failed, not_enough_data, add_size, bounds_check, read_bytes_into, skip,
  raw_read, read_primitive, and_then,
}

-- The position lies in the buffer, and the buffer is no larger than a `std::vector<uint8_t>` can be.
pub record IsValid (b : ByteBuffer) : Type 0 where
  pub within : b.position ≤ length b.bytes
  pub small : length b.bytes < 2 ^ 63

-- A buffer that has been written from its start and not rewound.
abbrev pub full : List ℕ → ByteBuffer
full bs = record { bytes = bs; position = length bs }

-- The position behind `front`, with `rest` ahead.
abbrev pub at : List ℕ → List ℕ → ByteBuffer
at front rest = record { bytes = front ++ rest; position = length front }

bounds_check-at :
    (n : ℕ) (front rest : List ℕ)
    → n ≤ length rest
    → length front + n < 2 ^ 64
    → bounds_check n (at front rest) ≡ done tt (at front rest)
unfolding bounds_check
bounds_check-at n front rest h s = ground (arith, length-append front rest)

bounds_check-short :
    (n : ℕ) (front rest : List ℕ)
    → length rest < n
    → length front + n < 2 ^ 64
    → bounds_check n (at front rest) ≡ failed not_enough_data (at front rest)
unfolding bounds_check
bounds_check-short n front rest h s = ground (arith, length-append front rest)

pub ahead :
    (n : ℕ) (front ws rest : List ℕ)
    → length ws ≡ n
    → take n (drop (length front) (front ++ (ws ++ rest))) ≡ ws
ahead n front ws rest e =
    rw (drop-append_length front (ws ++ rest), ← e) (take-append_length ws rest)

advance-at :
    (n : ℕ) (front ws rest : List ℕ)
    → length ws ≡ n
    → length front + n < 2 ^ 64
    → record { bytes = front ++ (ws ++ rest); position = add_size (length front) n }
      ≡ at (front ++ ws) rest
advance-at n front ws rest e h = ground (arith, append_assoc front ws rest, length-append front ws)

-- The next n bytes are there.
module _ (n : ℕ) (front ws rest : List ℕ) (e : length ws ≡ n) (h : length front + n < 2 ^ 64) where
  bounds_check_ahead : bounds_check n (at front (ws ++ rest)) ≡ done tt (at front (ws ++ rest))
  bounds_check_ahead = bounds_check-at n front (ws ++ rest) (omega (arith, length-append ws rest)) h

  pub read_bytes_into-at :
      read_bytes_into n (at front (ws ++ rest)) ≡ done ws (at (front ++ ws) rest)
  unfolding read_bytes_into
  read_bytes_into-at =
      rw (bounds_check_ahead, and_then)
        (rw (ahead n front ws rest e) (ap (done ws) (advance-at n front ws rest e h)))

  skip-at : skip n (at front (ws ++ rest)) ≡ done tt (at (front ++ ws) rest)
  unfolding skip
  skip-at = rw (bounds_check_ahead, and_then) (ap (done tt) (advance-at n front ws rest e h))

  raw_read-at : raw_read n (at front (ws ++ rest)) ≡ done (of_bytes_le ws) (at (front ++ ws) rest)
  unfolding raw_read
  raw_read-at =
      rw (bounds_check_ahead, and_then)
        (rw (ahead n front ws rest e) (ap (done (of_bytes_le ws)) (advance-at n front ws rest e h)))

-- A number in network order is read back.
pub read_primitive-at :
    (n v : ℕ) (front rest : List ℕ)
    → v < 256 ^ n
    → length front + n < 2 ^ 64
    → read_primitive n (at front (bytes_be n v ++ rest)) ≡ done v (at (front ++ bytes_be n v) rest)
unfolding read_primitive
read_primitive-at n v front rest hv h =
    rw (raw_read-at n front (bytes_be n v) rest (length-bytes_be n v) h, and_then)
      (rw (maybe_byteswap-of_bytes_be n v hv))
