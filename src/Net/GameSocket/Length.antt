-- ===== src/Net/GameSocket/Length.antt =====
-- src/net/game_socket.cpp, `encodePacket`: the length in front of a TCP packet.
use native.Mathlib.Nat.{mod-eq_of_lt}
use globed.Common.{
  ℕ, ◌+◌, ◌%◌, ◌^◌, ◌<◌, ◌≡◌, refl, sym, ap, ◌∙◌, false, List, [], ◌++◌, ok, arith, ltb,
  if◌then◌else◌, length, length-append, Bool-cases, inl, inr,
}
use globed.Data.Words.{bytes_be, bytes_le-maybe_byteswap, length-bytes_be}
use globed.Data.Buffer.{sub_size, size, set_position, raw_write_bytes, raw_write, write_primitive}
use globed.Data.Buffer.Cursor.{full}
use globed.Crypto.InPlace.{overwrite_stretch}
use globed.Packets.Base.{PacketClass}
use globed.Net.GameSocket.{length_size, write_packet_size, finished}

-- A number written over as many bytes inside a buffer.
write_primitive-over :
    (n v : ℕ) (front old back : List ℕ)
    → length old ≡ n
    → length (front ++ (old ++ back)) < 2 ^ 63
    → write_primitive n v (record { bytes = front ++ (old ++ back); position = length front })
      ≡ record { bytes = front ++ (bytes_be n v ++ back); position = length front + n }
unfolding write_primitive raw_write raw_write_bytes
write_primitive-over n v front old back e h =
    let ln = length-bytes_be n v in
    let l = length-append front (old ++ back) in
    let l' = length-append old back in
    let a : (length front + n) % 18446744073709551616 ≡ length front + n =
      mod-eq_of_lt (omega (arith, l, l', e)) in
    let no : ltb (length (front ++ (old ++ back))) (length front + n) ≡ false =
      ground (arith, l, l', e) in
    rw (bytes_le-maybe_byteswap n v, ln, a, no)
      (ap (λ bs. record { bytes = bs; position = length front + n })
        (overwrite_stretch front old (bytes_be n v) back (length front) refl (e ∙ sym ln)))

-- The length in front of a TCP packet, and what stands there until it is known.
abbrev pub framed : PacketClass → ℕ → List ℕ
framed c n = if c.use_tcp then bytes_be 4 n else []

pub length-framed : (c : PacketClass) (n : ℕ) → length (framed c n) ≡ length_size c
length-framed c n = elim (Bool-cases c.use_tcp) [
  | inl e ↦ rw e (length-bytes_be 4 n)
  | inr e ↦ rw e refl
]

pub write_packet_size_lem :
    (c : PacketClass) (front payload : List ℕ) (p : ℕ)
    → length front + length payload + 4 < 2 ^ 32
    → write_packet_size c
        (length front)
        (record { bytes = front ++ (framed c 0 ++ payload); position = p })
      ≡ record { bytes = front ++ (framed c (length payload) ++ payload); position = p }
unfolding write_packet_size set_position size
write_packet_size_lem c front payload p h = elim (Bool-cases c.use_tcp) [
  | inr e ↦ rw e refl
  | inl e ↦
      let n = length payload in
      let z = bytes_be 4 0 in
      let l = length-append front (z ++ payload) in
      let l' = length-append z payload in
      let lz = length-bytes_be 4 0 in
      let all = front ++ (z ++ payload) in
      let m : sub_size (sub_size (length all) 4) (length front) % 4294967296 ≡ n =
        omega (arith, l, l', lz) in
      rw (e, m)
        (ap (λ b. set_position p b)
          (write_primitive-over 4 n front z payload lz (omega (arith, l, l', lz))))
]

-- The end of `encodePacket`, for a buffer whose length field is still empty.
pub finish :
    (c : PacketClass) (front payload : List ℕ)
    → length front + length payload + 4 < 2 ^ 32
    → finished c (length front) (ok (full (front ++ (framed c 0 ++ payload))))
      ≡ ok (full (front ++ (framed c (length payload) ++ payload)))
unfolding finished
finish c front payload h =
    let frame = λ (n : ℕ). front ++ (framed c n ++ payload) in
    let same : length (frame 0) ≡ length (frame (length payload)) = omega (
      arith,
      length-append front (framed c 0 ++ payload),
      length-append (framed c 0) payload,
      length-append front (framed c (length payload) ++ payload),
      length-append (framed c (length payload)) payload,
      length-framed c 0,
      length-framed c (length payload),
    ) in
    ap ok (
      write_packet_size_lem c front payload (length (frame 0)) h
      ∙ ap (λ n. record { bytes = frame (length payload); position = n }) same)
