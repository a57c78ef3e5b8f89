-- ===== src/Managers/BlockList/Storage.antt =====
-- src/managers/block_list.cpp: what `load` makes of the bytes that `save` writes.
use native.Mathlib.Nat.{mod-eq_of_lt}
use globed.Common.{
  ℕ, ◌+◌, ◌/◌, ◌%◌, ◌^◌, ◌<◌, ◌≡◌, refl, ap, ◌∙◌, false, List, [], ◌∷◌, ◌++◌, none, arith, All,
  length, length-append, append_assoc,
}
use globed.Common.Int.{ℤ}
use globed.Data.Words.{bytes_le, bytes_be, length-bytes_be}
use globed.Data.Buffer.{ByteBuffer, done, of_bytes, write_primitive}
use globed.Data.Buffer.Cursor.{full, at}
use globed.Data.Buffer.Writes.{write_primitive-full}
use globed.Data.Buffer.Safety.{after}
use globed.Data.Serial.Numbers.{i32, u32, unsigned, IsSigned, signed}
use globed.Data.Serial.Containers.{
  length_prefix, wire_items, encode_items, decode_vector, items-write, vector-read,
}
use globed.Managers.BlockList.Sets.{contains-insert_all, or_false}
use globed.Managers.BlockList.{
  BlockList, contains, insert_all, write_set, save, load, load_bytes, loaded, is_explicitly_blocked,
  is_explicitly_allowed,
}

-- A count below 2 ^ 16 has two zero bytes in front.
count_bytes : (n : ℕ) → n < 2 ^ 16 → bytes_be 4 n ≡ 0 ∷ 0 ∷ bytes_be 2 n
unfolding bytes_be bytes_le
count_bytes n h =
    let a : n / 256 / 256 % 256 ≡ 0 = omega arith in
    let b : n / 256 / 256 / 256 % 256 ≡ 0 = omega arith in rw (a, b) refl

items : List ℤ → List ℕ
items = wire_items i32

write_set-full :
    (xs : List ℤ) (bs : List ℕ)
    → length xs < 2 ^ 32
    → length bs + 4 + length (items xs) < 2 ^ 63
    → write_set xs (full bs) ≡ full (bs ++ (bytes_be 4 (length xs) ++ items xs))
unfolding write_set u32 unsigned items
write_set-full xs bs h h' =
    let n = length xs in
    let c = bytes_be 4 n in
    let l = length-bytes_be 4 n in
    ap (λ m. encode_items i32 xs (write_primitive 4 m (full bs))) (mod-eq_of_lt h)
    ∙ ap (encode_items i32 xs) (write_primitive-full 4 n bs (omega arith))
    ∙ items-write i32 xs (bs ++ c) (omega (arith, length-append bs c, l))
    ∙ ap full (append_assoc bs c (items xs))

fits : (xs : List ℤ) → All (IsSigned 4) xs → All i32.IsFit xs
unfolding i32 signed
fits xs h = h

prefix_wire : (n : ℕ) → n < 2 ^ 16 → length_prefix.wire n ≡ bytes_be 2 n
unfolding length_prefix
prefix_wire n h = ap (bytes_be 2) (mod-eq_of_lt h)

-- A vector with its `uint16_t` count, as `readValue<std::vector<int>>` takes it.
vector_at :
    (xs : List ℤ) (front rest : List ℕ)
    → length xs < 2 ^ 16
    → All (IsSigned 4) xs
    → length front + 2 + length (items xs) < 2 ^ 63
    → decode_vector i32 (at front ((bytes_be 2 (length xs) ++ items xs) ++ rest))
      ≡ done xs (at (front ++ (bytes_be 2 (length xs) ++ items xs)) rest)
unfolding items
vector_at xs front rest h f s =
    let n = length xs in
    let e = prefix_wire n h in
    let small : length front + length (bytes_be 2 n ++ wire_items i32 xs) < 2 ^ 63 =
      omega (arith, s, length-append (bytes_be 2 n) (wire_items i32 xs), length-bytes_be 2 n) in
    rw e at (vector-read i32 xs front rest (h, fits xs f) (rw e small))

-- The bytes that `save` writes.
saved_bytes : BlockList → List ℕ
saved_bytes m =
    (bytes_be 4 (length m.blocked) ++ items m.blocked)
    ++ (bytes_be 4 (length m.allowed) ++ items m.allowed)

-- The lists are small enough for the buffer.
abbrev IsSmall : BlockList → Type 0
IsSmall m =
    (length m.blocked < 2 ^ 16)
    × (length m.allowed < 2 ^ 16)
    × (length (wire_items i32 m.blocked) + length (wire_items i32 m.allowed) < 2 ^ 62)
    × All (IsSigned 4) m.blocked

save_lem : (m : BlockList) → IsSmall m → save m ≡ record m { saved = saved_bytes m }
unfolding save of_bytes saved_bytes items
save_lem m h =
    let (hb, ha, hs, f) = h in
    let b = bytes_be 4 (length m.blocked) ++ items m.blocked in
    let lb : length b ≡ 4 + length (items m.blocked) = omega (
      arith,
      length-append (bytes_be 4 (length m.blocked)) (items m.blocked),
      length-bytes_be 4 (length m.blocked),
    ) in
    let small : length (items m.blocked) + length (items m.allowed) < 2 ^ 62 = hs in
    ap (λ (y : ByteBuffer). record m { saved = y.bytes })
      (ap (write_set m.allowed) (write_set-full m.blocked [] (omega arith) (omega arith))
        ∙ write_set-full m.allowed b (omega arith) (omega arith))

-- Two zero bytes are an empty vector.
empty_vector :
    (rest : List ℕ) → decode_vector i32 (of_bytes (0 ∷ 0 ∷ rest)) ≡ done [] (at (0 ∷ 0 ∷ []) rest)
unfolding of_bytes bytes_be bytes_le items wire_items
empty_vector rest = vector_at [] [] rest (omega arith) tt (omega arith)

load_bytes_lem :
    (m : BlockList) (xs : List ℤ) (rest : List ℕ)
    → length xs < 2 ^ 16
    → All (IsSigned 4) xs
    → length (wire_items i32 xs) < 2 ^ 62
    → load_bytes m (0 ∷ 0 ∷ ((bytes_be 2 (length xs) ++ items xs) ++ rest))
      ≡ (record m { blocked = []; allowed = insert_all xs [] }, none)
unfolding load_bytes loaded insert_all items
load_bytes_lem m xs rest h f hs =
    let bs = (bytes_be 2 (length xs) ++ items xs) ++ rest in
    let second = vector_at xs (0 ∷ 0 ∷ []) rest h f (omega arith) in
    ap (λ r. loaded m r (decode_vector i32 (after r))) (empty_vector bs)
    ∙ ap (loaded m (done [] (at (0 ∷ 0 ∷ []) bs))) second

-- `load` after `save`: the high half of the count is taken for the count of an empty list.
load-save_lists :
    (m : BlockList)
    → IsSmall m
    → load (save m) ≡ (record (save m) { blocked = []; allowed = insert_all m.blocked [] }, none)
unfolding load saved_bytes
load-save_lists m h =
    let (hb, ha, hs, f) = h in
    let e = save_lem m h in
    let n = length m.blocked in
    let w = items m.blocked in
    let tail = bytes_be 4 (length m.allowed) ++ items m.allowed in
    let head : saved_bytes m ≡ 0 ∷ 0 ∷ ((bytes_be 2 n ++ w) ++ tail) =
      ap (λ c. (c ++ w) ++ tail) (count_bytes n hb) in
    let start : BlockList = record (save m) { blocked = []; allowed = [] } in
    ap (load_bytes start) (ap (λ (y : BlockList). y.saved) e ∙ head)
    ∙ load_bytes_lem start m.blocked tail hb f (omega arith)

-- Whoever was blocked when the lists were saved is, after they are loaded again, not blocked but
-- allowed, and nobody else is on either list, as long as each list has less than 65536 members.
pub load-save :
    (m : BlockList) (id : ℤ)
    → IsSmall m
    → (is_explicitly_blocked id (load (save m)).0 ≡ false)
      × (is_explicitly_allowed id (load (save m)).0 ≡ is_explicitly_blocked id m)
unfolding is_explicitly_blocked is_explicitly_allowed contains
load-save m id h =
    let e = load-save_lists m h in
    (
      ap (λ r. contains id r.0.blocked) e,
      ap (λ r. contains id r.0.allowed) e
          ∙ contains-insert_all id m.blocked []
          ∙ or_false (contains id m.blocked),
    )
