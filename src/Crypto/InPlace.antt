-- ===== src/Crypto/InPlace.antt =====
-- src/crypto/base_box.hpp: encryption and decryption in place.
use globed.Common.{
  ℕ, ◌+◌, ◌-◌, ◌≤◌, ◌<◌, ◌≡◌, refl, ap, ◌∙◌, List, [], ◌++◌, arith, ltb, false, length, take, drop,
  length-append, length-take, length-drop, take-append-drop, append_assoc, append-nil,
  take-append_length, drop-append_length, take_all,
}
use mathlib.Core.Path.{ap₂}
use globed.Data.Buffer.{overwrite}
use globed.Data.Buffer.Writes.{overwrite_lem}
use globed.Crypto.Box.{
  Sodium, crypted, threw, nonce_len, prefix_len, encrypt_into, encrypt_in_place, opened, moved,
  decrypt_into, decrypt_in_place,
}

-- Behind two pieces.
drop-append_two :
    (front old back : List ℕ) (n : ℕ)
    → n ≡ length front + length old
    → drop n (front ++ (old ++ back)) ≡ back
drop-append_two front old back n e =
    let e' : n ≡ length (front ++ old) = omega (arith, e, length-append front old) in
    rw (← append_assoc front old back, e') (drop-append_length (front ++ old) back)

-- A write over a stretch of memory whose surroundings are named.
pub overwrite_stretch :
    (front old new back : List ℕ) (p : ℕ)
    → p ≡ length front
    → length old ≡ length new
    → overwrite (front ++ (old ++ back)) p new ≡ front ++ (new ++ back)
overwrite_stretch front old new back p e h =
    let m = front ++ (old ++ back) in
    let lm : length m ≡ length front + (length old + length back) =
      omega (arith, length-append front (old ++ back), length-append old back) in
    let t : take p m ≡ front = rw e (take-append_length front (old ++ back)) in
    let d : drop (p + length new) m ≡ back =
      drop-append_two front old back (p + length new) (omega (arith, e, h)) in
    overwrite_lem m p new (omega (arith, e, h, lm)) ∙ ap₂ (λ x y. x ++ (new ++ y)) t d

pub overwrite_tail :
    (front old new : List ℕ) (p : ℕ)
    → p ≡ length front
    → length old ≡ length new
    → overwrite (front ++ old) p new ≡ front ++ new
overwrite_tail front old new p e h =
    rw (append-nil old, append-nil new) at (overwrite_stretch front old new [] p e h)

-- A shorter write over the front of a stretch.
overwrite_front :
    (front old new : List ℕ) (p : ℕ)
    → p ≡ length front
    → length new ≤ length old
    → overwrite (front ++ old) p new ≡ front ++ (new ++ drop (length new) old)
overwrite_front front old new p e h =
    let n = length new in
    rw (take-append-drop n old) at
      (overwrite_stretch front (take n old) new (drop n old) p e (omega (arith, length-take n old)))

-- A write over all that stands behind the first n bytes of a stretch.
overwrite_behind :
    (front old new : List ℕ) (n : ℕ)
    → length old ≡ n + length new
    → overwrite (front ++ old) (length front + n) new ≡ front ++ (take n old ++ new)
overwrite_behind front old new n h =
    let l = take n old in
    let ll : length l ≡ n = omega (arith, length-take n old) in
    rw (append_assoc front l (drop n old), append_assoc front l new, take-append-drop n old) at
      (overwrite_tail (front ++ l) (drop n old) new (length front + n)
        (omega (arith, ll, length-append front l)) (omega (arith, length-drop n old)))

module _ (s : Sodium) where
  open s use {Key, seal, open_sealed, length-seal, open-seal}

  -- The bytes of a plaintext and the reserve of 40 behind it become the nonce and the sealed box,
  -- and what stands in front of them is kept.
  pub encrypt_in_place_lem :
      (k : Key) (nonce front plain reserve : List ℕ)
      → length nonce ≡ nonce_len
      → length reserve ≡ prefix_len
      → encrypt_in_place s k nonce (front ++ (plain ++ reserve)) (length front) (length plain)
        ≡ crypted (front ++ (nonce ++ seal k nonce plain)) (length plain + prefix_len)
  unfolding encrypt_in_place encrypt_into
  encrypt_in_place_lem k nonce front plain reserve hn hr =
      let src = plain ++ reserve in
      let c = seal k nonce plain in
      let l = take 24 src in
      let ls : length src ≡ 24 + length c =
        omega (arith, length-append plain reserve, hr, length-seal k nonce plain) in
      rw (drop-append_length front src, take-append_length plain reserve)
        (rw (overwrite_behind front src c 24 ls) (
          ap (λ m. crypted m (length plain + 40))
            (overwrite_stretch front l nonce c (length front) refl
              (omega (arith, length-take 24 src, hn)))))

  -- What was sealed behind its nonce is opened in place: the plaintext stands where the nonce
  -- stood, and what stands in front of it is kept.
  pub decrypt_in_place_lem :
      (k : Key) (nonce front plain : List ℕ)
      → length nonce ≡ nonce_len
      → decrypt_in_place s k
          (front ++ (nonce ++ seal k nonce plain))
          (length front)
          (length plain + prefix_len)
        ≡ crypted
            (front
              ++ (plain
                  ++ drop
                      (length plain)
                      (nonce ++ (plain ++ drop (length plain) (seal k nonce plain)))))
            (length plain)
  unfolding decrypt_in_place decrypt_into opened moved
  decrypt_in_place_lem k nonce front plain hn =
      let c = seal k nonce plain in
      let n = length plain in
      let lc = length-seal k nonce plain in
      let e : length front + 24 ≡ length (front ++ nonce) =
        omega (arith, length-append front nonce, hn) in
      let e' : n + 40 - 40 ≡ n = omega arith in
      let e'' : n + 40 - 24 ≡ length c = omega (arith, lc) in
      let no : ltb (n + 40) 40 ≡ false = ground arith in
      let t : take 24 (drop (length front) (front ++ (nonce ++ c))) ≡ nonce =
        rw (drop-append_length front (nonce ++ c), ← hn) (take-append_length nonce c) in
      let behind : (xs : List ℕ) → drop (length front + 24) (front ++ (nonce ++ xs)) ≡ xs =
        λ xs. drop-append_two front nonce xs (length front + 24) (omega (arith, hn)) in
      let w : overwrite (front ++ (nonce ++ c)) (length front + 24) plain
          ≡ front ++ (nonce ++ (plain ++ drop n c)) =
        rw (append_assoc front nonce c, append_assoc front nonce (plain ++ drop n c)) at
          (overwrite_front (front ++ nonce) c plain (length front + 24) e (omega (arith, lc))) in
      rw (no, t, behind c, e'', take_all (length c) c (omega arith), open-seal k nonce plain)
        (rw (w, e', behind (plain ++ drop n c), take-append_length plain (drop n c))
          (ap (λ m. crypted m n)
            (overwrite_front front (nonce ++ (plain ++ drop n c)) plain (length front) refl (
              omega
                (arith, length-append nonce (plain ++ drop n c), length-append plain (drop n c))))))

  -- Less than a nonce and a tag is refused with an exception.
  pub decrypt_in_place-short :
      (k : Key) (memory : List ℕ) (at n : ℕ)
      → n < prefix_len
      → decrypt_in_place s k memory at n ≡ threw
  unfolding decrypt_in_place decrypt_into moved
  decrypt_in_place-short k memory at n h = ground arith
