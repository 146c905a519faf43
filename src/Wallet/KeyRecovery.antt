-- ===== src/Wallet/KeyRecovery.antt =====
-- The private key comes back from the two layers of encryption and the text in localStorage.
use moa_crypto.Common.{◌≡◌, refl, ap, ◌∙◌, false}
use moa_crypto.Text.{Text, starts_with}
use moa_crypto.Text.Hex.{IsHex}
use moa_crypto.CryptoModule.{
  CryptoModule, CipherParams, CodecLaws, CipherLaws, salted_prefix, openssl_stringify,
  openssl_bytes,
}
use moa_crypto.Wallet.Cipher.{
  encrypt_aes_data, decrypt_aes_data, encrypt_pbe_data, decrypt_pbe_data, encrypt_prk, decrypt_prk,
}

module _ (c : CryptoModule) where
  open c use {WordArray, hex_stringify, hex_parse, base64_stringify, base64_parse}

  -- The AES ciphertext of a text in hexadecimal does not begin with the header of a salted one.
  abbrev pub IsUnsalted : (target psw : Text) (salt : WordArray) → Type 0
  IsUnsalted target psw salt =
      starts_with (hex_stringify (encrypt_aes_data c target psw salt).ciphertext) salted_prefix
      ≡ false

  -- The text that saveData keeps, as generateTransactionSign reads it back.
  abbrev pub kept_text : CipherParams WordArray → Text
  kept_text p = hex_stringify (base64_parse (openssl_stringify c p))

  pub base64-kept_text :
      CodecLaws c
      → (p : CipherParams WordArray)
      → base64_stringify (hex_parse (kept_text p)) ≡ openssl_stringify c p
  base64-kept_text codec p =
      rw codec.hex_parse-hex_stringify (rw codec.base64_parse-base64_stringify refl)

  -- AES ciphertexts carry no salt, so their text is the Base64 of the ciphertext.
  pub text-encrypt_aes_data :
      CipherLaws c
      → (target psw : Text) (salt : WordArray)
      → openssl_stringify c (encrypt_aes_data c target psw salt)
        ≡ base64_stringify (encrypt_aes_data c target psw salt).ciphertext
  unfolding encrypt_aes_data
  text-encrypt_aes_data laws target psw salt =
      ap (λ s. base64_stringify (openssl_bytes c (encrypt_aes_data c target psw salt).ciphertext s))
        (laws.ctr-salt _ _ _)

  pub decrypt_aes_data-encrypt_aes_data :
      CipherLaws c
      → (target psw : Text) (salt : WordArray) → IsUnsalted target psw salt
      → decrypt_aes_data c
          (base64_stringify (encrypt_aes_data c target psw salt).ciphertext)
          psw
          salt
        ≡ hex_parse target
  unfolding decrypt_aes_data encrypt_aes_data
  decrypt_aes_data-encrypt_aes_data laws target psw salt h =
      laws.ctr_decrypt-ctr_encrypt (hex_parse target) _ _ h

  pub decrypt_prk-encrypt_prk :
      CodecLaws c
      → CipherLaws c
      → (drawn : WordArray) (target psw : Text) (salt : WordArray) → IsUnsalted target psw salt
      → decrypt_prk c
          (base64_stringify (hex_parse (kept_text (encrypt_prk c drawn target psw salt))))
          psw
          salt
        ≡ hex_parse target
  unfolding decrypt_prk encrypt_prk decrypt_pbe_data encrypt_pbe_data
  decrypt_prk-encrypt_prk codec laws drawn target psw salt h =
      rw (base64-kept_text codec)
        (rw laws.pbe_decrypt-pbe_encrypt (decrypt_aes_data-encrypt_aes_data laws target psw salt h))

  -- The text of the recovered key is the text that was encrypted: getPrk decrypts what it
  -- encrypted, through the text that is kept, where the key is hexadecimal and its AES ciphertext
  -- does not begin with "Salted__", under the laws of the encoders and ciphers.
  pub hex-decrypt_prk :
      CodecLaws c
      → CipherLaws c
      → (drawn : WordArray) (target psw : Text) (salt : WordArray) → IsHex target
      → IsUnsalted target psw salt
      → hex_stringify (
          decrypt_prk c
            (base64_stringify (hex_parse (kept_text (encrypt_prk c drawn target psw salt))))
            psw
            salt)
        ≡ target
  hex-decrypt_prk codec laws drawn target psw salt is_hex h =
      ap hex_stringify (decrypt_prk-encrypt_prk codec laws drawn target psw salt h)
      ∙ codec.hex_stringify-hex_parse target is_hex
