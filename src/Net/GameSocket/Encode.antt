-- ===== src/Net/GameSocket/Encode.antt =====
-- src/net/game_socket.cpp, `encodePacket`: the bytes that a packet becomes.
use native.Mathlib.Nat.{mod-eq_of_lt}
use globed.Common.{
  ℕ, ◌+◌, ◌-◌, ◌%◌, ◌^◌, ◌<◌, ◌≡◌, refl, sym, ap, ◌∙◌, true, false, List, ◌++◌, Option, some, ok,
  arith, if◌then◌else◌, length, replicate, length-append, take_all, append-nil, ◌≤◌, append_assoc,
  Bool-cases, inl, inr,
}
use globed.Data.Words.{bytes_be}
use globed.Data.Buffer.{ByteBuffer, sub_size, size, resize, grow, write_primitive}
use globed.Data.Buffer.Cursor.{full}
use globed.Data.Buffer.Writes.{write_primitive-full}
use globed.Data.Serial.Numbers.{u16, boolean}
use globed.Data.Serial.Members.{struct}
use globed.Crypto.Box.{Sodium, crypted, nonce_len, encrypt_in_place}
use globed.Crypto.InPlace.{encrypt_in_place_lem}
use globed.Packets.Base.{PacketClass, PacketHeader, packet_header, header_size}
use globed.Net.GameSocket.{
  Packet, header_of, length_size, write_plain, encrypt_body, encoded, finished, encode_packet,
}
use globed.Net.GameSocket.Length.{framed, length-framed, write_packet_size_lem, finish}

-- The packet before encryption.
abbrev pub plain : Packet → List ℕ
plain p = packet_header.wire (header_of p.class) ++ p.class.body.wire p.members

start_written :
    (c : PacketClass) (front : List ℕ)
    → length front + 4 < 2 ^ 63
    → (if c.use_tcp then write_primitive 4 0 (full front) else full front)
      ≡ full (front ++ framed c 0)
start_written c front h = elim (Bool-cases c.use_tcp) [
  | inl e ↦ rw e (write_primitive-full 4 0 front (omega arith))
  | inr e ↦ rw (e, append-nil front) refl
]

write_plain-full :
    (p : Packet) (front : List ℕ)
    → length front + length (plain p) + 64 < 2 ^ 32
    → write_plain p (full front) ≡ full (front ++ (framed p.class 0 ++ plain p))
unfolding write_plain
write_plain-full p front h =
    let c = p.class in
    let hw = packet_header.wire (header_of c) in
    let bw = c.body.wire p.members in
    let fr = front ++ framed c 0 in
    let lh = length-append hw bw in
    let lf = length-append front (framed c 0) in
    let lz = length-framed c 0 in
    let small : length_size c ≤ 4 = elim (Bool-cases c.use_tcp) [
      | inl e ↦ rw e (omega arith)
      | inr e ↦ rw e (omega arith)
    ] in
    let rest = λ (b : ByteBuffer). c.body.write p.members (packet_header.write (header_of c) b) in
    ap rest (start_written c front (omega arith))
    ∙ ap (λ b. c.body.write p.members b)
        (packet_header.write-full (header_of c) fr (omega (arith, lh, lf, lz, small)))
    ∙ c.body.write-full p.members (fr ++ hw) (omega (arith, length-append fr hw, lh, lf, lz, small))
    ∙ ap full (append_assoc fr hw bw ∙ append_assoc front (framed c 0) (hw ++ bw))

pub length-header_wire : (h : PacketHeader) → length (packet_header.wire h) ≡ header_size
unfolding packet_header bytes_be struct u16 boolean
length-header_wire h = refl

length-header : (c : PacketClass) → length (packet_header.wire (header_of c)) ≡ header_size
length-header c = length-header_wire (header_of c)

-- A packet of an unencrypted class is appended to a buffer as its header and its members, behind
-- their length if it goes over TCP, as long as the whole stays below 4 GiB.
pub encode_packet-cleartext :
    (s : Sodium) (box : Option s.Key) (nonce : List ℕ) (p : Packet) (front : List ℕ)
    → p.class.encrypted ≡ false
    → length front + length (plain p) + 64 < 2 ^ 32
    → encode_packet s box nonce p (full front)
      ≡ ok (full (front ++ (framed p.class (length (plain p)) ++ plain p)))
unfolding encode_packet
encode_packet-cleartext s box nonce p front e h =
    let c = p.class in
    let n = length front in
    let end = finished c n in
    let t = encrypt_body s box nonce c n (write_plain p (full front)) in
    ap (λ y. end (if y then t else ok (write_plain p (full front)))) e
    ∙ ap (λ b. end (ok b)) (write_plain-full p front h)
    ∙ finish c front (plain p) (omega arith)

-- The reserve that `grow` adds.
grow-full :
    (n : ℕ) (bs : List ℕ)
    → length bs + n < 2 ^ 64
    → grow n (full bs) ≡ record { bytes = bs ++ replicate n 0; position = length bs }
unfolding grow resize size
grow-full n bs h =
    let e : (length bs + n) % 18446744073709551616 ≡ length bs + n = mod-eq_of_lt h in
    let e' : length bs + n - length bs ≡ n = omega arith in
    rw (e, e', take_all (length bs + n) bs (omega arith)) refl

-- A packet before its encryption, and after it.
abbrev pub sealed : (s : Sodium) → s.Key → List ℕ → Packet → List ℕ
sealed s k nonce p =
    packet_header.wire (header_of p.class)
    ++ (nonce ++ s.seal k nonce (p.class.body.wire p.members))

encrypt_body_lem :
    (s : Sodium) (k : s.Key) (nonce : List ℕ) (p : Packet) (front : List ℕ)
    → length nonce ≡ nonce_len
    → length front + length (plain p) + 64 < 2 ^ 32
    → encrypt_body s
        (some k)
        nonce
        p.class
        (length front)
        (full (front ++ (framed p.class 0 ++ plain p)))
      ≡ ok (record {
        bytes = front ++ (framed p.class 0 ++ sealed s k nonce p);
        position = length (front ++ (framed p.class 0 ++ plain p));
      })
unfolding encrypt_body encoded size
encrypt_body_lem s k nonce p front hn h =
    let c = p.class in
    let z = framed c 0 in
    let hw = packet_header.wire (header_of c) in
    let bw = c.body.wire p.members in
    let pre = front ++ (z ++ hw) in
    let whole = front ++ (z ++ (hw ++ bw)) in
    let reserve : List ℕ = replicate 40 0 in
    let lh = length-header c in
    let lz = length-framed c 0 in
    let lw : length whole ≡ length front + (length_size c + (3 + length bw)) = omega (
      arith,
      length-append front (z ++ (hw ++ bw)),
      length-append z (hw ++ bw),
      length-append hw bw,
      lh,
      lz,
    ) in
    let lp : length pre ≡ length front + (3 + length_size c) =
      omega (arith, length-append front (z ++ hw), length-append z hw, lh, lz) in
    let small : length_size c ≤ 4 = elim (Bool-cases c.use_tcp) [
      | inl e ↦ rw e (omega arith)
      | inr e ↦ rw e (omega arith)
    ] in
    let lg : length (whole ++ reserve) ≡ length whole + 40 =
      omega (arith, length-append whole reserve) in
    let lb = length-append hw bw in
    let assoc : (xs : List ℕ) → pre ++ xs ≡ front ++ (z ++ (hw ++ xs)) =
      λ xs. append_assoc front (z ++ hw) xs ∙ ap (λ y. front ++ y) (append_assoc z hw xs) in
    let memory : whole ++ reserve ≡ pre ++ (bw ++ reserve) =
      ap (λ y. y ++ reserve) (sym (assoc bw)) ∙ append_assoc pre bw reserve in
    let raw : sub_size
          (sub_size (sub_size (length (whole ++ reserve)) (3 + length_size c)) (length front)) 40
        ≡ length bw =
      omega (arith, lg, lw, small, h, lb, lh) in
    let run : encrypt_in_place s k nonce (whole ++ reserve) (length front + (3 + length_size c))
          (length bw)
        ≡ crypted (front ++ (z ++ sealed s k nonce p)) (length bw + 40) =
      rw (memory, ← lp) (encrypt_in_place_lem s k nonce pre bw reserve hn refl)
      ∙ ap (λ m. crypted m (length bw + 40)) (assoc (nonce ++ s.seal k nonce bw)) in
    let header = 3 + length_size c in
    let place = λ (g : ByteBuffer) (n : ℕ).
      encoded g (encrypt_in_place s k nonce g.bytes (length front + header) n) in
    let left = λ (g : ByteBuffer).
      sub_size (sub_size (sub_size (length g.bytes) header) (length front)) 40 in
    let grown : ByteBuffer = record { bytes = whole ++ reserve; position = length whole } in
    ap (λ g. place g (left g)) (grow-full 40 whole (omega (arith, lw, small, lb, lh)))
    ∙ ap (place grown) raw
    ∙ ap (encoded grown) run

-- With a key, a packet of an encrypted class is appended to a buffer as its header, the nonce and
-- the sealed members, behind their length if it goes over TCP, as long as the whole stays below 4
-- GiB. The position is left where the plaintext ended.
pub encode_packet-encrypted :
    (s : Sodium) (k : s.Key) (nonce : List ℕ) (p : Packet) (front : List ℕ)
    → p.class.encrypted ≡ true
    → length nonce ≡ nonce_len
    → length front + length (plain p) + 64 < 2 ^ 32
    → encode_packet s (some k) nonce p (full front)
      ≡ ok (record {
        bytes = front ++ (framed p.class (length (sealed s k nonce p)) ++ sealed s k nonce p);
        position = length (front ++ (framed p.class 0 ++ plain p));
      })
unfolding encode_packet finished
encode_packet-encrypted s k nonce p front e hn h =
    let c = p.class in
    let n = length front in
    let t = λ (b : ByteBuffer). encrypt_body s (some k) nonce c n b in
    let hw = packet_header.wire (header_of c) in
    let bw = c.body.wire p.members in
    let sw = s.seal k nonce bw in
    let ls : length (sealed s k nonce p) ≡ length (plain p) + 40 = omega (
      arith,
      length-append hw (nonce ++ sw),
      length-append nonce sw,
      hn,
      s.length-seal k nonce bw,
      length-append hw bw,
    ) in
    ap
      (λ y.
        finished c n
          (if y then t (write_plain p (full front)) else ok (write_plain p (full front))))
      e
    ∙ ap (λ b. finished c n (t b)) (write_plain-full p front h)
    ∙ ap (λ r. finished c n r) (encrypt_body_lem s k nonce p front hn h)
    ∙ ap ok (write_packet_size_lem c front (sealed s k nonce p) _ (omega (arith, ls)))
