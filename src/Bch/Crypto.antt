-- ===== src/Bch/Crypto.antt =====
-- The cryptography that internal/bch calls: crypto/sha256, x/crypto/ripemd160 and decred's
-- secp256k1. A private key is known by its serialized bytes.
use freedom_names.Common.{ℕ, List}

pub record Crypto : Type 0 where
  pub sha256 : List ℕ → List ℕ
  pub ripemd160 : List ℕ → List ℕ
  -- ecdsa.Sign(priv, digest).Serialize()
  pub sign : List ℕ → List ℕ → List ℕ
  -- priv.PubKey().SerializeCompressed()
  pub pub_key : List ℕ → List ℕ

module _ (c : Crypto) where
  unfoldable pub hash160 : List ℕ → List ℕ
  hash160 b = c.ripemd160 (c.sha256 b)

  unfoldable pub sha256d : List ℕ → List ℕ
  sha256d b = c.sha256 (c.sha256 b)
