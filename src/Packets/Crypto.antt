-- ===== src/Packets/Crypto.antt =====
-- src/data/types/crypto.hpp.
use globed.Common.{ℕ, refl, List}
use globed.Data.Serial.{Serial}
use globed.Data.Serial.Text.{bytearray}
use globed.Data.Serial.Members.{none_left, ◌&◌, ◌⊗◌, struct}

pub record CryptoPublicKey : Type 0 where
  pub key : List ℕ

unfoldable pub crypto_public_key : Serial CryptoPublicKey
crypto_public_key =
    struct ((bytearray 32) & none_left) (λ t. t.key ⊗ tt) (λ r. record { key = r.0 }) (λ t. refl)
