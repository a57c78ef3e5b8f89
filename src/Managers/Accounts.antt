-- ===== src/Managers/Accounts.antt =====
-- src/managers/account.cpp: the user's identity, and what is saved under it. A failed
-- `GLOBED_REQUIRE` throws: `none`. The saved values of `Mod` are a map from keys to texts.
use globed.Common.{
  ℕ, ◌≡◌, refl, ap, ◌∙◌, Bool, true, false, not, List, [], ◌∷◌, ◌++◌, Option, none, some,
  if◌then◌else◌, length,
}
use globed.Common.Int.{ℤ}
use globed.Common.Keys.{same_text, text_key}
use globed.Common.Maps.{Map, lookup, assign, lookup-assign, same_refl}
use globed.Crypto.Box.{Sodium, Crypted, crypted, threw, encrypt, decrypt, nonce_len}
use globed.Crypto.Fresh.{encrypt_lem, decrypt_lem}

-- What the class calls: the formatting of an `int`, `simpleHash` printed in hex, the key that
-- `SecretBox` makes of such a text or an exception, and Base64.
pub record Codecs (s : Sodium) : Type 0 where
  pub print_int : ℤ → List ℕ
  pub hash_hex : List ℕ → List ℕ
  pub key_of : List ℕ → Option s.Key
  pub base64_encode : List ℕ → List ℕ
  pub base64_decode : List ℕ → Option (List ℕ)
  pub decode-encode : (bs : List ℕ) → base64_decode (base64_encode bs) ≡ some bs

pub record GdData : Type 0 where
  pub account_name : List ℕ
  pub account_id : ℤ
  pub user_id : ℤ
  pub central : List ℕ
  pub precomputed_hash : List ℕ

-- "auth-totp-key", "stored-admin-pw".
abbrev auth_key_name : List ℕ
auth_key_name = 97 ∷ 117 ∷ 116 ∷ 104 ∷ 45 ∷ 116 ∷ 111 ∷ 116 ∷ 112 ∷ 45 ∷ 107 ∷ 101 ∷ 121 ∷ []

abbrev admin_password_name : List ℕ
admin_password_name =
    115 ∷ 116 ∷ 111 ∷ 114 ∷ 101 ∷ 100 ∷ 45 ∷ 97 ∷ 100 ∷ 109 ∷ 105 ∷ 110 ∷ 45 ∷ 112 ∷ 119 ∷ []

abbrev or_empty : Option (List ℕ) → List ℕ
or_empty none = []
or_empty (some t) = t

abbrev pub is_empty : List ℕ → Bool
is_empty [] = true
is_empty (c ∷ cs) = false

module _ (s : Sodium) (c : Codecs s) where
  open c use {print_int, hash_hex, key_of, base64_encode, base64_decode, decode-encode}

  pub record Account : Type 0 where
    pub initialized : Bool
    pub gd_data : GdData
    pub crypto_box : Option s.Key
    pub auth_token : List ℕ
    pub saved : Map (List ℕ) (List ℕ)

  -- `computeGDDataHash`.
  unfoldable compute_hash : List ℕ → ℤ → ℤ → List ℕ → List ℕ
  compute_hash name account_id user_id central =
      hash_hex (name ++ 45 ∷ print_int account_id ++ 45 ∷ print_int user_id ++ 45 ∷ central)

  unfoldable box_of : Option s.Key → GdData → Account → Option Account
  box_of none d a = none
  box_of (some k) d a = some (record a { gd_data = d; crypto_box = some k; initialized = true })

  unfoldable initialize : List ℕ → ℤ → ℤ → List ℕ → Account → Option Account
  unfolding compute_hash box_of
  initialize name account_id user_id central a =
      let hash = compute_hash name account_id user_id central in
      box_of (key_of hash)
        (record {
          account_name = name;
          account_id = account_id;
          user_id = user_id;
          central = central;
          precomputed_hash = hash;
        })
        a

  -- `getKeyFor`.
  unfoldable key_for : List ℕ → Account → List ℕ
  key_for key a = key ++ 45 ∷ a.gd_data.precomputed_hash

  -- `getSavedValue` of a text, `setSavedValue`.
  abbrev saved_value : List ℕ → Account → List ℕ
  saved_value key a = or_empty (lookup key a.saved)

  abbrev set_saved : List ℕ → List ℕ → Account → Account
  set_saved key value a = record a { saved = assign key value a.saved }

  abbrev required {ℓ} : {A : Type ℓ} → Account → A → Option A
  required a x = if a.initialized then some x else none

  unfoldable store_auth_key : List ℕ → Account → Option Account
  unfolding key_for
  store_auth_key source a =
      required a (set_saved (key_for auth_key_name a) (base64_encode source) a)

  unfoldable clear_auth_key : Account → Option Account
  unfolding key_for
  clear_auth_key a = required a (set_saved (key_for auth_key_name a) [] a)

  unfoldable pub get_auth_key : Account → Option (List ℕ)
  unfolding key_for
  get_auth_key a = required a (saved_value (key_for auth_key_name a) a)

  unfoldable has_auth_key : Account → Option Bool
  unfolding key_for
  has_auth_key a = required a (not (is_empty (saved_value (key_for auth_key_name a) a)))

  unfoldable stored_password : Crypted → Account → Option Account
  unfolding key_for
  stored_password threw a = none
  stored_password (crypted bytes n) a =
      some (set_saved (key_for admin_password_name a) (base64_encode bytes) a)

  unfoldable store_with : Option s.Key → List ℕ → List ℕ → Account → Option Account
  unfolding stored_password
  store_with none nonce password a = none
  store_with (some k) nonce password a = stored_password (encrypt s k nonce password) a

  -- `storeAdminPassword`.
  unfoldable pub store_admin_password : List ℕ → List ℕ → Account → Option Account
  unfolding store_with
  store_admin_password nonce password a =
      if a.initialized then store_with a.crypto_box nonce password a else none

  unfoldable clear_admin_password : Account → Option Account
  unfolding key_for
  clear_admin_password a = required a (set_saved (key_for admin_password_name a) [] a)

  unfoldable has_admin_password : Account → Option Bool
  unfolding key_for
  has_admin_password a = required a (not (is_empty (saved_value (key_for admin_password_name a) a)))

  unfoldable password_of : Crypted → Option (List ℕ)
  password_of threw = none
  password_of (crypted bytes n) = some bytes

  unfoldable decrypted : Option s.Key → Option (List ℕ) → Option (List ℕ)
  unfolding password_of
  decrypted none bytes = none
  decrypted (some k) none = none
  decrypted (some k) (some bytes) = password_of (decrypt s k bytes)

  -- `getAdminPassword`; what throws inside is caught.
  unfoldable pub get_admin_password : Account → Option (Option (List ℕ))
  unfolding key_for decrypted
  get_admin_password a =
      required a
        (decrypted a.crypto_box (base64_decode (saved_value (key_for admin_password_name a) a)))

  other_key :
      (a : Account) → same_text (key_for admin_password_name a) (key_for auth_key_name a) ≡ false
  unfolding key_for
  other_key a = refl

  -- On an initialized account with a key, storing a password succeeds; it is then read back whole,
  -- also through Base64 and the encryption under a nonce of 24 bytes, and the saved authentication
  -- key is still the one before.
  pub get_admin_password-store :
      (nonce password : List ℕ) (k : s.Key) (a : Account)
      → a.initialized ≡ true
      → a.crypto_box ≡ some k
      → length nonce ≡ nonce_len
      → (a' : Account) × (store_admin_password nonce password a ≡ some a')
        × (get_admin_password a' ≡ some (some password))
        × (get_auth_key a' ≡ get_auth_key a)
  unfolding store_admin_password get_admin_password get_auth_key store_with stored_password
      decrypted password_of
  get_admin_password-store nonce password k a i b hn =
      let key = key_for admin_password_name a in
      let value = base64_encode (nonce ++ s.seal k nonce password) in
      let a' = set_saved key value a in
      let here : lookup key a'.saved ≡ some value =
        lookup-assign key key value a.saved
        ∙ ap (λ x. if x then some value else lookup key a.saved) (same_refl key) in
      let there : lookup (key_for auth_key_name a) a'.saved
          ≡ lookup (key_for auth_key_name a) a.saved =
        lookup-assign key (key_for auth_key_name a) value a.saved
        ∙ ap (λ x. if x then some value else lookup (key_for auth_key_name a) a.saved)
            (other_key a) in
      let kept : get_admin_password a'
          ≡ some (decrypted a.crypto_box (base64_decode (or_empty (lookup key a'.saved)))) =
        ap
          (λ x.
            if x
            then some (decrypted a.crypto_box (base64_decode (or_empty (lookup key a'.saved))))
            else none)
          i in
      (
        a',
        ap (λ x. if x then store_with a.crypto_box nonce password a else none) i
            ∙ ap (λ o. store_with o nonce password a) b
            ∙ ap (λ r. stored_password r a) (encrypt_lem s k nonce password hn),
        kept
            ∙ ap (λ v. some (decrypted a.crypto_box (base64_decode (or_empty v)))) here
            ∙ ap (λ v. some (decrypted a.crypto_box v))
                (decode-encode (nonce ++ s.seal k nonce password))
            ∙ ap (λ o. some (decrypted o (some (nonce ++ s.seal k nonce password)))) b
            ∙ ap (λ r. some (password_of r)) (decrypt_lem s k nonce password hn),
        ap (λ v. if a.initialized then some (or_empty v) else none) there,
      )
