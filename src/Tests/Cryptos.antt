-- ===== src/Tests/Cryptos.antt =====
-- Padding and round trips with ciphers that change nothing: the laws of the ciphers can hold.
use moonparty.Base.{
  ℕ, ◌-◌, ◌≡◌, refl, some, List, [], ◌∷◌, ◌++◌, arith, length, take, replicate, length-append,
  take-append_self,
}
use moonparty.Crypto.{Context, done, encrypt_cbc}
use moonparty.Crypto.Ciphers.{Block, Aead, IsBlock, IsAead}
use moonparty.Crypto.RoundTrip.{decrypt_cbc-encrypt_cbc}

abbrev plain_block : Block
plain_block = record { block_size = 4; cbc_encrypt = λ iv p. p; cbc_decrypt = λ iv c. c }

abbrev plain_aead : Aead
plain_aead = record {
  nonce_size = 2;
  overhead = 2;
  seal = λ iv p d. p ++ replicate 2 0;
  open_text = λ iv c d. some (take (length c - 2) c);
}

plain_block-IsBlock : IsBlock plain_block
plain_block-IsBlock = record {
  size_positive = omega arith;
  size_fits = omega arith;
  keeps_length = λ iv p hi hp. refl;
  decrypts = λ iv p hi hp. refl;
}

plain_aead-IsAead : IsAead plain_aead
plain_aead-IsAead = record {
  seal_length = λ iv p d hi. length-append p (replicate 2 0);
  opens = λ iv p d hi.
      ground (arith, length-append p (replicate 2 0), take-append_self p (replicate 2 0));
}

abbrev plain : Context
plain = record { key = []; gcm_cipher = some plain_aead; cbc_block = some plain_block }

abbrev iv : List ℕ
iv = 0 ∷ 0 ∷ 0 ∷ 0 ∷ []

decrypt_cbc-encrypt_cbc_example :
    (ct : List ℕ) × (encrypt_cbc plain (7 ∷ 8 ∷ 9 ∷ 1 ∷ []) iv ≡ done ct)
decrypt_cbc-encrypt_cbc_example =
    let (ct, e, _, _, _, _) =
      decrypt_cbc-encrypt_cbc plain plain_block iv (7 ∷ 8 ∷ 9 ∷ 1 ∷ []) refl plain_block-IsBlock
        refl in
    (ct, e)
