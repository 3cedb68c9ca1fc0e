-- ===== src/Crypto/Ciphers.antt =====
-- What moonlight-common-go/crypto/crypto.go takes from Go's crypto library, and what the library
-- documents of it.
use moonparty.Base.{ℕ, ◌+◌, ◌%◌, ◌<◌, ◌≡◌, Option, some, List, length}

-- A `cipher.Block` with the `CryptBlocks` of its CBC modes, by the initialisation vector.
pub record Block : Type 0 where
  pub block_size : ℕ
  pub cbc_encrypt : List ℕ → List ℕ → List ℕ
  pub cbc_decrypt : List ℕ → List ℕ → List ℕ

-- A `cipher.AEAD`: `seal` and `open_text`, for `Seal` and `Open`, take the nonce, the text and the additional data.
pub record Aead : Type 0 where
  pub nonce_size : ℕ
  pub overhead : ℕ
  pub seal : List ℕ → List ℕ → List ℕ → List ℕ
  pub open_text : List ℕ → List ℕ → List ℕ → Option (List ℕ)

-- `aes.NewCipher` and `cipher.NewGCM`; `none` is an error.
pub record Aes : Type 0 where
  pub new_cipher : List ℕ → Option Block
  pub new_gcm : Block → Option Aead

-- A block size fits a byte. On whole blocks and with a vector of one block, each mode keeps the
-- length and decryption undoes encryption.
pub record IsBlock (b : Block) : Type 0 where
  pub size_positive : 0 < b.block_size
  pub size_fits : b.block_size < 256
  pub keeps_length :
      (iv p : List ℕ)
      → length iv ≡ b.block_size
      → length p % b.block_size ≡ 0
      → length (b.cbc_encrypt iv p) ≡ length p
  pub decrypts :
      (iv p : List ℕ)
      → length iv ≡ b.block_size
      → length p % b.block_size ≡ 0
      → b.cbc_decrypt iv (b.cbc_encrypt iv p) ≡ p

-- A sealed text is longer by the overhead, and opens under the same nonce and data.
pub record IsAead (a : Aead) : Type 0 where
  pub seal_length :
      (iv p d : List ℕ) → length iv ≡ a.nonce_size → length (a.seal iv p d) ≡ length p + a.overhead
  pub opens :
      (iv p d : List ℕ) → length iv ≡ a.nonce_size → a.open_text iv (a.seal iv p d) d ≡ some p
