-- ===== src/Net/GameSocket/Decode.antt =====
-- src/net/game_socket.cpp, `decodePacket`: what comes back of a packet, and what is refused.
use globed.Common.{
  ℕ, ◌+◌, ◌-◌, ◌^◌, ◌<◌, ◌≡◌, refl, sym, ap, ◌∙◌, Bool, true, false, not, ◌&&◌, List, [], ◌++◌,
  Option, none, some, ok, err, arith, if◌then◌else◌, length, take, drop, length-append,
  append_assoc, append-nil, take-append_length,
}
use globed.Data.Buffer.{done, sub_size, size, resize, of_bytes}
use globed.Data.Buffer.Cursor.{at}
use globed.Data.Serial.Numbers.{u16, boolean, unsigned}
use globed.Data.Serial.Members.{struct, IsFitMembers}
use globed.Crypto.Box.{Sodium, nonce_len, prefix_len, decrypt_in_place}
use globed.Crypto.InPlace.{decrypt_in_place_lem, decrypt_in_place-short}
use globed.Packets.Base.{PacketClass, PacketHeader, packet_header, header_size}
use globed.Net.GameSocket.{
  Packet, invalid_packet, cleartext_packet, exception, header_of, match_packet, decoded,
  decode_decrypted, decode_encrypted, decode_matched, decode_headed, decode_packet,
}
use globed.Net.GameSocket.Encode.{plain, sealed, length-header_wire}

and_false : (x : Bool) → (x && false) ≡ false
and_false true = refl
and_false false = refl

header-fits : (h : PacketHeader) → h.id < 2 ^ 16 → packet_header.IsFit h
unfolding packet_header struct u16 boolean unsigned IsFitMembers
header-fits h f = (f, (tt, tt))

header-small : (h : PacketHeader) → 0 + length (packet_header.wire h) < 2 ^ 63
header-small h = let e = length-header_wire h in omega (arith, e)

-- The header of any packet is read back.
header-read :
    (h : PacketHeader) (rest : List ℕ)
    → h.id < 2 ^ 16
    → packet_header.read (of_bytes (packet_header.wire h ++ rest))
      ≡ done h (at (packet_header.wire h) rest)
unfolding of_bytes
header-read h rest f = packet_header.read-at h [] rest (header-fits h f) (header-small h)

-- What `decryptInPlace` leaves, cut to its length.
resize_lem :
    (hw bw junk : List ℕ)
    → length hw ≡ header_size
    → resize (length bw + header_size) (record { bytes = hw ++ (bw ++ junk); position = length hw })
      ≡ at hw (bw ++ [])
unfolding resize
resize_lem hw bw junk e =
    let n = length bw + 3 in
    let l : length (hw ++ bw) ≡ n = omega (arith, length-append hw bw, e) in
    let none_added : n - length (hw ++ (bw ++ junk)) ≡ 0 =
      omega (arith, e, length-append hw (bw ++ junk), length-append bw junk) in
    let cut : take n (hw ++ (bw ++ junk)) ≡ hw ++ bw =
      rw (← append_assoc hw bw junk, ← l) (take-append_length (hw ++ bw) junk) in
    rw (none_added, cut) (rw (append-nil (hw ++ bw), append-nil bw) refl)

module _ (s : Sodium) (classes : List PacketClass) where
  -- A packet that was sent in cleartext, of an unencrypted class that `matchPacket` knows, with
  -- members that fit the wire and a payload that fits a vector, is decoded.
  pub decode_packet-cleartext :
      (box : Option s.Key) (p : Packet)
      → p.class.encrypted ≡ false
      → p.class.id < 2 ^ 16
      → match_packet classes p.class.id ≡ some p.class
      → p.class.body.IsFit p.members
      → length (plain p) < 2 ^ 63
      → decode_packet s classes box (of_bytes (plain p)) ≡ ok p
  unfolding decode_packet decode_headed decode_matched decoded
  decode_packet-cleartext box p e hid hm f h =
      let c = p.class in
      let hw = packet_header.wire (header_of c) in
      let bw = c.body.wire p.members in
      let l = length-append hw bw in
      let b = at hw bw in
      let clear = decoded c (c.body.read b) in
      let crypt = decode_encrypted s box c b in
      ap (decode_headed s classes box) (header-read (header_of c) bw hid)
      ∙ ap (decode_matched s box (header_of c) b) hm
      ∙ ap (λ y. if y && not y then err cleartext_packet else if y then crypt else clear) e
      ∙ ap (λ xs. decoded c (c.body.read (at hw xs))) (sym (append-nil bw))
      ∙ ap (decoded c) (c.body.read-at p.members hw [] f (omega (arith, l)))

  -- A packet that was sealed under the same key, of an encrypted class that `matchPacket` knows,
  -- with members that fit the wire and a payload that fits a vector, is decoded.
  pub decode_packet-encrypted :
      (k : s.Key) (nonce : List ℕ) (p : Packet)
      → p.class.encrypted ≡ true
      → length nonce ≡ nonce_len
      → p.class.id < 2 ^ 16
      → match_packet classes p.class.id ≡ some p.class
      → p.class.body.IsFit p.members
      → length (plain p) + 64 < 2 ^ 63
      → decode_packet s classes (some k) (of_bytes (sealed s k nonce p)) ≡ ok p
  unfolding decode_packet decode_headed decode_matched decoded decode_encrypted decode_decrypted
      size
  decode_packet-encrypted k nonce p e hn hid hm f h =
      let c = p.class in
      let hw = packet_header.wire (header_of c) in
      let bw = c.body.wire p.members in
      let rest = nonce ++ s.seal k nonce bw in
      let l = length-append hw bw in
      let lr : length rest ≡ length bw + 40 =
        omega (arith, length-append nonce (s.seal k nonce bw), s.length-seal k nonce bw, hn) in
      let lh = length-header_wire (header_of c) in
      let b = at hw rest in
      let clear = decoded c (c.body.read b) in
      let crypt = decode_encrypted s (some k) c b in
      let ln : sub_size (length (hw ++ rest)) (length hw) ≡ length bw + 40 =
        omega (arith, length-append hw rest, lr, lh, l) in
      let opened = decrypt_in_place_lem s k nonce hw bw hn in
      let junk = drop (length bw) (nonce ++ (bw ++ drop (length bw) (s.seal k nonce bw))) in
      ap (decode_headed s classes (some k)) (header-read (header_of c) rest hid)
      ∙ ap (decode_matched s (some k) (header_of c) b) hm
      ∙ ap (λ y. if y && not y then err cleartext_packet else if y then crypt else clear) e
      ∙ ap (λ n. decode_decrypted c b (decrypt_in_place s k (hw ++ rest) 3 n)) ln
      ∙ ap (λ n. decode_decrypted c b (decrypt_in_place s k (hw ++ rest) n (length bw + 40)))
          (sym lh)
      ∙ ap (decode_decrypted c b) opened
      ∙ ap (λ x. decoded c (c.body.read x)) (resize_lem hw bw junk lh)
      ∙ ap (decoded c) (c.body.read-at p.members hw [] f (omega (arith, l)))

  -- A packet without the encrypted flag is refused where its class, which `matchPacket` knows,
  -- asks for encryption, whatever stands in it and whether there is a key or not.
  pub decode_packet-downgraded :
      (box : Option s.Key) (c : PacketClass) (rest : List ℕ)
      → c.encrypted ≡ true
      → c.id < 2 ^ 16
      → match_packet classes c.id ≡ some c
      → decode_packet s classes box
          (of_bytes (packet_header.wire (record { id = c.id; encrypted = false }) ++ rest))
        ≡ err cleartext_packet
  unfolding decode_packet decode_headed decode_matched
  decode_packet-downgraded box c rest e hid hm =
      let h : PacketHeader = record { id = c.id; encrypted = false } in
      let b = at (packet_header.wire h) rest in
      ap (decode_headed s classes box) (header-read h rest hid)
      ∙ ap (decode_matched s box h b) hm
      ∙ ap (λ y. if y && true then err cleartext_packet else decoded c (c.body.read b)) e

  -- A packet whose id no case of the switch has is refused with that id.
  decode_packet-unknown :
      (box : Option s.Key) (h : PacketHeader) (rest : List ℕ)
      → h.id < 2 ^ 16
      → match_packet classes h.id ≡ none
      → decode_packet s classes box (of_bytes (packet_header.wire h ++ rest))
        ≡ err (invalid_packet h.id)
  unfolding decode_packet decode_headed decode_matched
  decode_packet-unknown box h rest hid hm =
      ap (decode_headed s classes box) (header-read h rest hid)
      ∙ ap (decode_matched s box h (at (packet_header.wire h) rest)) hm

  -- A packet of a known class with the encrypted flag and too few bytes behind its header for a
  -- nonce and a tag is met with an exception.
  pub decode_packet-short :
      (k : s.Key) (c : PacketClass) (h : PacketHeader) (rest : List ℕ)
      → h.id < 2 ^ 16
      → h.encrypted ≡ true
      → match_packet classes h.id ≡ some c
      → length rest < prefix_len
      → decode_packet s classes (some k) (of_bytes (packet_header.wire h ++ rest)) ≡ err exception
  unfolding decode_packet decode_headed decode_matched decode_encrypted decode_decrypted size
  decode_packet-short k c h rest hid e hm hl =
      let hw = packet_header.wire h in
      let b = at hw rest in
      let clear = decoded c (c.body.read b) in
      let crypt = decode_encrypted s (some k) c b in
      let ln : sub_size (length (hw ++ rest)) (length hw) ≡ length rest =
        omega (arith, length-append hw rest, length-header_wire h) in
      ap (decode_headed s classes (some k)) (header-read h rest hid)
      ∙ ap (decode_matched s (some k) h b) hm
      ∙ ap (λ y. if c.encrypted && not y then err cleartext_packet else if y then crypt else clear)
          e
      ∙ ap (λ y. if y then err cleartext_packet else crypt) (and_false c.encrypted)
      ∙ ap (λ n. decode_decrypted c b (decrypt_in_place s k (hw ++ rest) 3 n)) ln
      ∙ ap (decode_decrypted c b) (decrypt_in_place-short s k (hw ++ rest) 3 (length rest) hl)
