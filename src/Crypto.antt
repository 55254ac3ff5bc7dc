-- ===== src/Crypto.antt =====
-- internal/crypto as its users see it: a cipher with its two laws. Encrypting draws a nonce, so it
-- takes the count of the random values drawn before.
pub mod Sealing
use apisix_developer_portal.Common.{ℕ, String, Option, some, ◌≡◌, ◌≢◌}

pub record Cipher : Type 0 where
  pub encrypt : ℕ → String → String
  pub decrypt : String → Option String
  pub decrypt-encrypt : (nonce : ℕ) (plain : String) → decrypt (encrypt nonce plain) ≡ some plain
  pub encrypt-ne-nil : (nonce : ℕ) (plain : String) → encrypt nonce plain ≢ ""
