-- ===== src/Crypto/RoundTrip.antt =====
-- What decryption gives back of what was encrypted.
use moonparty.Base.{
  ℕ, zero, suc, [], ◌∷◌, length-drop, ◌+◌, ◌-◌, ◌%◌, ◌<◌, ◌≤◌, ◌≡◌, refl, ap, ◌∙◌, some, List, ◌++◌,
  arith, length, take, drop,
}
use moonparty.Crypto.{Context, done, encrypt_gcm, decrypt_gcm, encrypt_cbc, decrypt_cbc, pad, unpad}
use moonparty.Crypto.Ciphers.{Block, Aead, IsBlock, IsAead}
use moonparty.Crypto.Padding.{unpad-pad, remainder_lt, length-pad, length-pad_whole}

take-append_drop : (n : ℕ) (xs : List ℕ) → take n xs ++ drop n xs ≡ xs
take-append_drop zero xs = refl
take-append_drop (suc n) [] = refl
take-append_drop (suc n) (x ∷ xs) = ap (◌∷◌ x) (take-append_drop n xs)

pub length-take : (n : ℕ) (xs : List ℕ) → n ≤ length xs → length (take n xs) ≡ n
length-take zero xs h = refl
length-take (suc n) [] h = absurd (omega arith)
length-take (suc n) (x ∷ xs) h = ap suc (length-take n xs (omega arith))

decrypt_cbc_whole :
    (c : Context) (b : Block) (iv ct : List ℕ)
    → c.cbc_block ≡ some b
    → length iv ≡ b.block_size
    → length ct % b.block_size ≡ 0
    → decrypt_cbc c ct iv ≡ done (unpad b.block_size (b.cbc_decrypt iv ct))
unfolding decrypt_cbc
decrypt_cbc_whole c b iv ct e hi hc = ground arith

-- For a block cipher as documented and a vector of one block, CBC encryption succeeds with a
-- ciphertext of whole blocks that is longer than the plaintext by at most a block, and decryption
-- gives the plaintext back.
pub decrypt_cbc-encrypt_cbc :
    (c : Context) (b : Block) (iv p : List ℕ)
    → c.cbc_block ≡ some b
    → IsBlock b
    → length iv ≡ b.block_size
    → (ct : List ℕ) × (encrypt_cbc c p iv ≡ done ct)
      × (length ct % b.block_size ≡ 0)
      × (length p < length ct)
      × (length ct ≤ length p + b.block_size)
      × (decrypt_cbc c ct iv ≡ done p)
decrypt_cbc-encrypt_cbc c b iv p e v hi =
    let padded = pad b.block_size p in
    let whole = length-pad_whole b.block_size p v.size_positive in
    let same = v.keeps_length iv padded hi whole in
    let size = length-pad b.block_size p v.size_positive in
    let short = remainder_lt (length p) b.block_size v.size_positive in
    let whole_ct = ap (λ (n : ℕ). n % b.block_size) same ∙ whole in
    (
      b.cbc_encrypt iv padded,
      unfold encrypt_cbc in ground arith,
      whole_ct,
      omega arith,
      omega arith,
      decrypt_cbc_whole c b iv (b.cbc_encrypt iv padded) e hi whole_ct
          ∙ ap (λ (x : List ℕ). done (unpad b.block_size x)) (v.decrypts iv padded hi whole)
          ∙ ap done (unpad-pad b.block_size p v.size_positive v.size_fits),
    )

-- For an AEAD as documented and a nonce of its size, GCM encryption succeeds with a ciphertext of
-- the plaintext's length and a tag of the overhead's, which decryption under the same nonce and
-- data turns back into the plaintext.
pub decrypt_gcm-encrypt_gcm :
    (c : Context) (a : Aead) (iv p d : List ℕ)
    → c.gcm_cipher ≡ some a
    → IsAead a
    → length iv ≡ a.nonce_size
    → (ct tag : List ℕ) × (encrypt_gcm c p iv d ≡ done (ct, tag))
      × (length ct ≡ length p)
      × (length tag ≡ a.overhead)
      × (decrypt_gcm c ct iv tag d ≡ done p)
decrypt_gcm-encrypt_gcm c a iv p d e v hi =
    let sealed = a.seal iv p d in
    let size = v.seal_length iv p d hi in
    let start = length sealed - a.overhead in
    (
      take start sealed,
      drop start sealed,
      unfold encrypt_gcm in ground arith,
      omega (arith, length-take start sealed (omega arith)),
      omega (arith, length-drop start sealed),
      unfold decrypt_gcm in ground (arith, take-append_drop start sealed, v.opens iv p d hi),
    )
