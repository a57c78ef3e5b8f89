-- ===== src/Crypto/Fresh.antt =====
-- src/crypto/base_box.hpp: `encrypt` and `decrypt` into new vectors.
use globed.Common.{
  ℕ, ◌+◌, ◌-◌, ◌≡◌, refl, sym, ap, ◌∙◌, some, List, [], ◌++◌, arith, ltb, false, length, take, drop,
  replicate, length-append, length-take, length-drop, length-replicate, take-append-drop,
  take-append_length, drop-append_length, take_all,
}
use globed.Data.Buffer.{overwrite}
use globed.Crypto.InPlace.{overwrite_stretch, overwrite_tail}
use globed.Crypto.Box.{Sodium, crypted, nonce_len, prefix_len, encrypt, decrypt, opened}

abbrev blank : ℕ → List ℕ
blank n = replicate n 0

length-blank : (n : ℕ) → length (blank n) ≡ n
length-blank n = length-replicate {A = ℕ} n 0

-- A write over a whole vector.
overwrite_whole : (old new : List ℕ) → length old ≡ length new → overwrite old 0 new ≡ new
overwrite_whole old new h = overwrite_tail [] old new 0 refl h

module _ (s : Sodium) (k : s.Key) (nonce src : List ℕ) (hn : length nonce ≡ nonce_len) where
  pub encrypt_lem :
      encrypt s k nonce src ≡ crypted (nonce ++ s.seal k nonce src) (length src + prefix_len)
  unfolding encrypt
  encrypt_lem =
      let c = s.seal k nonce src in
      let lc = s.length-seal k nonce src in
      let output = blank (length src + prefix_len) in
      let lo = length-blank (length src + prefix_len) in
      let front = take nonce_len output in
      let back = drop nonce_len output in
      let lf : length front ≡ nonce_len = omega (arith, length-take nonce_len output, lo) in
      let lb : length back ≡ length c = omega (arith, length-drop nonce_len output, lo, lc) in
      let one : overwrite output nonce_len c ≡ front ++ c =
        ap (λ bs. overwrite bs nonce_len c) (sym (take-append-drop nonce_len output))
        ∙ overwrite_tail front back c nonce_len (sym lf) lb in
      let two : overwrite (front ++ c) 0 nonce ≡ nonce ++ c =
        overwrite_stretch [] front nonce c 0 refl (lf ∙ sym hn) in
      ap (λ bs. crypted (overwrite bs 0 nonce) (length src + prefix_len)) one
      ∙ ap (λ bs. crypted bs (length src + prefix_len)) two

  -- What was sealed into a new vector is opened again: the vector that `decrypt` yields holds the
  -- plaintext and nothing else.
  pub decrypt_lem : decrypt s k (nonce ++ s.seal k nonce src) ≡ crypted src (length src)
  unfolding decrypt opened
  decrypt_lem =
      let c = s.seal k nonce src in
      let all = nonce ++ c in
      let lc = s.length-seal k nonce src in
      let la : length all ≡ length src + prefix_len =
        omega (arith, length-append nonce c, hn, lc) in
      let enough : ltb (length all) prefix_len ≡ false = ground arith in
      let n : take nonce_len all ≡ nonce =
        ap (λ (m : ℕ). take m all) (sym hn) ∙ take-append_length nonce c in
      let b : drop nonce_len all ≡ c =
        ap (λ (m : ℕ). drop m all) (sym hn) ∙ drop-append_length nonce c in
      let t : take (length all - nonce_len) (drop nonce_len all) ≡ c =
        ap (take (length all - nonce_len)) b
        ∙ take_all (length all - nonce_len) c (omega (arith, la, lc)) in
      let o : s.open_sealed k (take nonce_len all)
            (take (length all - nonce_len) (drop nonce_len all))
          ≡ some src =
        ap (λ x. s.open_sealed k x (take (length all - nonce_len) (drop nonce_len all))) n
        ∙ ap (s.open_sealed k nonce) t
        ∙ s.open-seal k nonce src in
      rw (decrypt, enough)
        (ap (opened s (blank (length all - prefix_len)) 0 (length all)) o
          ∙ ap (λ bs. crypted bs (length all - prefix_len))
              (overwrite_whole (blank (length all - prefix_len)) src
                (omega (arith, length-blank (length all - prefix_len), la)))
          ∙ ap (crypted src) (omega (arith, la)))
