-- ===== src/Data/Buffer/Writes.antt =====
-- src/data/bytebuffer.cpp, `rawWriteBytes`: the bytes after a write, on each branch.
use globed.Common.{
  ℕ, zero, suc, ◌+◌, ◌^◌, ◌≤◌, ◌<◌, ◌≡◌, refl, sym, ap, ◌∙◌, List, [], ◌∷◌, ◌++◌, arith, ltb,
  if◌then◌else◌, length, take, drop, set, length-append, length-take, length-set, take_all,
  drop_all, take-append-drop, append-nil, append_assoc,
}
use globed.Data.Words.{bytes_be, bytes_le-maybe_byteswap, length-bytes_be}
use globed.Data.Buffer.Cursor.{IsValid, full, read_bytes_into-at}
use globed.Data.Buffer.{
  ByteBuffer, overwrite, raw_write_bytes, raw_write, write_primitive, done, read_bytes_into,
  set_position,
}

length-overwrite : (old : List ℕ) (p : ℕ) (xs : List ℕ) → length (overwrite old p xs) ≡ length old
unfolding overwrite
length-overwrite old p [] = refl
length-overwrite old p (x ∷ xs) = length-overwrite (set old p x) (p + 1) xs ∙ length-set old p x

-- One round of the loop, seen from the front of the list.
overwrite-cons :
    (y : ℕ) (old : List ℕ) (p : ℕ) (xs : List ℕ)
    → overwrite (y ∷ old) (suc p) xs ≡ y ∷ overwrite old p xs
unfolding overwrite
overwrite-cons y old p [] = refl
overwrite-cons y old p (x ∷ xs) =
    let e : suc p + 1 ≡ suc (p + 1) = omega arith in
    rw e (overwrite-cons y (set old p x) (p + 1) xs)

-- Within the buffer the loop replaces as many bytes as it writes.
pub overwrite_lem :
    (old : List ℕ) (p : ℕ) (xs : List ℕ)
    → p + length xs ≤ length old
    → overwrite old p xs ≡ take p old ++ (xs ++ drop (p + length xs) old)
unfolding overwrite
overwrite_lem old p [] h = let e : p + 0 ≡ p = omega arith in rw e (sym (take-append-drop p old))
overwrite_lem [] zero (x ∷ xs) h = absurd (omega arith)
overwrite_lem (y ∷ old) zero (x ∷ xs) h =
    let e : 0 + suc (length xs) ≡ suc (0 + length xs) = omega arith in
    rw e (overwrite-cons x old 0 xs ∙ ap (◌∷◌ x) (overwrite_lem old 0 xs (omega arith)))
overwrite_lem [] (suc p) (x ∷ xs) h = absurd (omega arith)
overwrite_lem (y ∷ old) (suc p) (x ∷ xs) h =
    let e : suc p + suc (length xs) ≡ suc (p + suc (length xs)) = omega arith in
    rw e (overwrite-cons y old p (x ∷ xs) ∙ ap (◌∷◌ y) (overwrite_lem old p (x ∷ xs) (omega arith)))

-- At the end of the buffer a write appends.
pub raw_write_bytes-full :
    (bs ws : List ℕ)
    → length bs + length ws < 2 ^ 64
    → raw_write_bytes ws (full bs) ≡ full (bs ++ ws)
unfolding raw_write_bytes
raw_write_bytes-full bs [] h = unfold overwrite in ground (arith, append-nil bs)
raw_write_bytes-full bs (w ∷ ws) h = ground (
  arith,
  take_all (length bs) bs,
  drop_all (length bs) bs,
  append-nil ws,
  length-append bs (w ∷ ws),
)

-- How many of the old bytes a write of n bytes at position p leaves out of its way: it takes the
-- place of n old bytes where these are there, and of none where it runs past the end.
abbrev pub kept_from : ByteBuffer → ℕ → ℕ
kept_from b n = if ltb (length b.bytes) (b.position + n) then b.position else b.position + n

-- A write from a valid position puts its bytes there, behind the bytes before the position and in
-- front of the old bytes that it keeps, and moves the position behind them.
pub raw_write_bytes_lem :
    (ws : List ℕ) (b : ByteBuffer)
    → IsValid b
    → b.position + length ws < 2 ^ 64
    → raw_write_bytes ws b ≡ record {
      bytes = take b.position b.bytes ++ (ws ++ drop (kept_from b (length ws)) b.bytes);
      position = b.position + length ws;
    }
unfolding raw_write_bytes
raw_write_bytes_lem ws b v h = ground (arith, overwrite_lem b.bytes b.position ws)

-- In a buffer with a valid position and room in its size, the bytes that were written are read
-- back from the position of the write, on either branch of it.
pub read_bytes_into-raw_write_bytes :
    (ws : List ℕ) (b : ByteBuffer)
    → IsValid b
    → length b.bytes + length ws < 2 ^ 63
    → read_bytes_into (length ws) (set_position b.position (raw_write_bytes ws b))
      ≡ done ws (raw_write_bytes ws b)
unfolding set_position
read_bytes_into-raw_write_bytes ws b v h =
    let front = take b.position b.bytes in
    let e : length front ≡ b.position = omega (arith, length-take b.position b.bytes) in
    let e' : length (front ++ ws) ≡ b.position + length ws =
      omega (arith, e, length-append front ws) in
    rw (raw_write_bytes_lem ws b v (omega arith)) (
      rw (e', e, append_assoc) at
        (read_bytes_into-at (length ws) front ws (drop (kept_from b (length ws)) b.bytes) refl
          (omega arith)))

-- A number is appended in network order.
pub write_primitive-full :
    (n v : ℕ) (bs : List ℕ)
    → length bs + n < 2 ^ 64
    → write_primitive n v (full bs) ≡ full (bs ++ bytes_be n v)
unfolding write_primitive raw_write
write_primitive-full n v bs h =
    rw (bytes_le-maybe_byteswap n v)
      (raw_write_bytes-full bs (bytes_be n v) (omega (arith, length-bytes_be n v)))
