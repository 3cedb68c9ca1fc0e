-- ===== src/Crypto.antt =====
-- moonlight-common-go/crypto/crypto.go: AES-GCM and AES-CBC with padding.
-- The ciphers of Go's library are parameters: a block cipher in CBC mode, and an AEAD. What the
-- library documents of them is `IsBlock` and `IsAead` of Crypto/Ciphers.
pub mod Ciphers
pub mod Padding
pub mod RoundTrip
use moonparty.Base.{
  ℕ, ◌+◌, ◌-◌, ◌*◌, ◌/◌, ◌%◌, Bool, true, false, ◌&&◌, Option, none, some, List, [], ◌∷◌, ◌++◌, ltb,
  leb, ◌==◌, ◌!=◌, if◌then◌else◌, length, get_or, take, drop, replicate,
}
use moonparty.Base.Bytes.{u8}
use moonparty.Crypto.Ciphers.{Block, Aead, Aes}

pub data CryptoError : Type 0 where
  invalid_key encryption_failed decryption_failed invalid_iv_size invalid_ciphertext_size :
      CryptoError
  library_error : CryptoError

-- A value, an error, or a panic of a library call.
pub data Result {ℓ} (A : Type ℓ) : Type ℓ where
  done : A → Result A
  failed : CryptoError → Result A
  panicked : Result A

pub record Context : Type 0 where
  pub key : List ℕ
  pub gcm_cipher : Option Aead
  pub cbc_block : Option Block

unfoldable pub new_context : Aes → List ℕ → Result Context
new_context aes key =
    if (length key != 16) && (length key != 24) && (length key != 32)
    then failed invalid_key
    else elim (aes.new_cipher key) [
      | none ↦ failed library_error
      | some block ↦ elim (aes.new_gcm block) [
        | none ↦ failed library_error
        | some gcm ↦ done (record { key = key; gcm_cipher = some gcm; cbc_block = some block })
      ]
    ]

-- The ciphertext and the tag.
unfoldable pub encrypt_gcm : Context → List ℕ → List ℕ → List ℕ → Result (List ℕ × List ℕ)
encrypt_gcm c plaintext iv additional_data = elim c.gcm_cipher [
  | none ↦ failed encryption_failed
  | some gcm ↦
      let sealed = gcm.seal iv plaintext additional_data in
      let tag_start = length sealed - gcm.overhead in
      if length iv != gcm.nonce_size
      then failed invalid_iv_size
      else if ltb (length sealed) gcm.overhead
      then panicked
      else done (take tag_start sealed, drop tag_start sealed)
]

unfoldable pub decrypt_gcm : Context → List ℕ → List ℕ → List ℕ → List ℕ → Result (List ℕ)
decrypt_gcm c ciphertext iv tag additional_data = elim c.gcm_cipher [
  | none ↦ failed decryption_failed
  | some gcm ↦
      if length iv != gcm.nonce_size
      then failed invalid_iv_size
      else elim (gcm.open_text iv (ciphertext ++ tag) additional_data) [
        | none ↦ failed decryption_failed
        | some plaintext ↦ done plaintext
      ]
]

-- The plaintext with its PKCS7 padding.
unfoldable pub pad : ℕ → List ℕ → List ℕ
pad block_size plaintext =
    let padding = block_size - length plaintext % block_size in
    plaintext ++ replicate padding (u8 padding)

unfoldable pub encrypt_cbc : Context → List ℕ → List ℕ → Result (List ℕ)
unfolding pad
encrypt_cbc c plaintext iv = elim c.cbc_block [
  | none ↦ failed encryption_failed
  | some block ↦
      if length iv != block.block_size
      then failed invalid_iv_size
      else done (block.cbc_encrypt iv (pad block.block_size plaintext))
]

-- The loop that verifies the padding.
unfoldable pub all_equal : ℕ → List ℕ → Bool
all_equal x [] = true
all_equal x (y ∷ ys) = let rest = all_equal x ys in if y == x then rest else false

-- What `DecryptCBC` makes of the decrypted blocks: a padding that is not valid is left in place.
unfoldable pub unpad : ℕ → List ℕ → List ℕ
unfolding all_equal
unpad block_size plaintext =
    let n = length plaintext in
    let padding = get_or plaintext (n - 1) 0 in
    if ltb 0 n
    then (if ltb 0 padding && leb padding block_size
        then (if all_equal (u8 padding) (drop (n - padding) plaintext)
            then take (n - padding) plaintext
            else plaintext)
        else plaintext)
    else plaintext

unfoldable pub decrypt_cbc : Context → List ℕ → List ℕ → Result (List ℕ)
unfolding unpad
decrypt_cbc c ciphertext iv = elim c.cbc_block [
  | none ↦ failed decryption_failed
  | some block ↦
      if length iv != block.block_size
      then failed invalid_iv_size
      else if length ciphertext % block.block_size != 0
      then failed invalid_ciphertext_size
      else done (unpad block.block_size (block.cbc_decrypt iv ciphertext))
]

abbrev pub padded_size : ℕ → ℕ → ℕ
padded_size block_size n =
    let size = (n + block_size - 1) / block_size * block_size in
    if size == 0 then block_size else size

-- The plaintext with zeros up to a multiple of the block size, and one block at least.
unfoldable pub pad_to_block : ℕ → List ℕ → List ℕ
pad_to_block block_size plaintext =
    plaintext ++ replicate (padded_size block_size (length plaintext) - length plaintext) 0

-- The size of the initialisation vector is not tested: the library panics where it is wrong.
unfoldable pub encrypt_cbc_pad_to_block : Context → List ℕ → List ℕ → Result (List ℕ)
unfolding pad_to_block
encrypt_cbc_pad_to_block c plaintext iv = elim c.cbc_block [
  | none ↦ failed encryption_failed
  | some block ↦
      if length iv != block.block_size
      then panicked
      else done (block.cbc_encrypt iv (pad_to_block block.block_size plaintext))
]

unfoldable pub gcm_nonce_size : Context → ℕ
gcm_nonce_size c = elim c.gcm_cipher [ none ↦ 12 | some gcm ↦ gcm.nonce_size ]

unfoldable pub gcm_overhead : Context → ℕ
gcm_overhead c = elim c.gcm_cipher [ none ↦ 16 | some gcm ↦ gcm.overhead ]

unfoldable pub block_size_of : Context → ℕ
block_size_of c = elim c.cbc_block [ none ↦ 16 | some block ↦ block.block_size ]
