-- ===== src/Crypto/Box.antt =====
-- src/crypto/base_box.hpp, src/crypto/box.cpp, src/crypto/secret_box.cpp.
-- libsodium is a parameter: `Sodium` is one of its boxes in combined mode, with what its
-- documentation says of it. A nonce is an argument where the code draws one at random. Memory is a
-- list of bytes, and a pointer is an offset into it.
use globed.Common.{
  ℕ, ◌+◌, ◌-◌, ◌≡◌, List, Option, none, some, ltb, if◌then◌else◌, length, take, drop, replicate,
}
use globed.Data.Buffer.{overwrite}

abbrev pub nonce_len : ℕ
nonce_len = 24

abbrev mac_len : ℕ
mac_len = 16

abbrev pub prefix_len : ℕ
prefix_len = nonce_len + mac_len

-- `crypto_box_…_easy_afternm` and `crypto_box_…_open_easy_afternm`, or `crypto_secretbox_easy` and
-- `crypto_secretbox_open_easy`: the tag stands in front of the ciphertext. `none` is a forgery.
pub record Sodium : Type 1 where
  pub Key : Type 0
  pub seal : Key → List ℕ → List ℕ → List ℕ
  pub open_sealed : Key → List ℕ → List ℕ → Option (List ℕ)
  pub length-seal : (k : Key) (n m : List ℕ) → length (seal k n m) ≡ length m + mac_len
  pub open-seal : (k : Key) (n m : List ℕ) → open_sealed k n (seal k n m) ≡ some m

-- A call that returns leaves the memory and a length; `threw` is a failed `CRYPTO_REQUIRE` or
-- `CRYPTO_ERR_CHECK`.
pub data Crypted : Type 0 where
  crypted : List ℕ → ℕ → Crypted
  threw : Crypted

module _ (s : Sodium) where
  open s use {Key, seal, open_sealed}

  -- `encryptInto(src, dest, size)` within one memory; libsodium reads the source before it writes.
  unfoldable pub encrypt_into : Key → List ℕ → List ℕ → ℕ → ℕ → ℕ → Crypted
  encrypt_into k nonce memory src dest n =
      let ciphertext = seal k nonce (take n (drop src memory)) in
      crypted (overwrite (overwrite memory (dest + nonce_len) ciphertext) dest nonce)
        (n + prefix_len)

  -- The write of the plaintext, after the check of the tag.
  unfoldable pub opened : List ℕ → ℕ → ℕ → Option (List ℕ) → Crypted
  opened memory dest n none = threw
  opened memory dest n (some plaintext) = crypted (overwrite memory dest plaintext) (n - prefix_len)

  -- `decryptInto(src, dest, size)`.
  unfoldable pub decrypt_into : Key → List ℕ → ℕ → ℕ → ℕ → Crypted
  decrypt_into k memory src dest n =
      if ltb n prefix_len
      then threw
      else opened memory dest n (
          open_sealed k (take nonce_len (drop src memory))
            (take (n - nonce_len) (drop (src + nonce_len) memory)))

  -- `encryptInPlace(data, size)`.
  unfoldable pub encrypt_in_place : Key → List ℕ → List ℕ → ℕ → ℕ → Crypted
  unfolding encrypt_into
  encrypt_in_place k nonce memory at n = encrypt_into k nonce memory at at n

  -- `std::memmove(data, data + nonceLength(), plaintext_size)`.
  unfoldable pub moved : ℕ → Crypted → Crypted
  moved at threw = threw
  moved at (crypted memory n) =
      crypted (overwrite memory at (take n (drop (at + nonce_len) memory))) n

  -- `decryptInPlace(data, size)`.
  unfoldable pub decrypt_in_place : Key → List ℕ → ℕ → ℕ → Crypted
  unfolding decrypt_into moved
  decrypt_in_place k memory at n = moved at (decrypt_into k memory at (at + nonce_len) n)

  -- `encrypt(src, size)`, into a new vector.
  unfoldable pub encrypt : Key → List ℕ → List ℕ → Crypted
  encrypt k nonce src =
      let ciphertext = seal k nonce src in
      let output = replicate (length src + prefix_len) 0 in
      crypted (overwrite (overwrite output nonce_len ciphertext) 0 nonce) (length src + prefix_len)

  -- `decrypt(src, size)`, into a new vector. Where the size is below the prefix, the length of that
  -- vector wraps around and the vector's constructor throws.
  unfoldable pub decrypt : Key → List ℕ → Crypted
  unfolding opened
  decrypt k src =
      if ltb (length src) prefix_len
      then threw
      else opened (replicate (length src - prefix_len) 0) 0 (length src)
          (open_sealed k (take nonce_len src) (take (length src - nonce_len) (drop nonce_len src)))
