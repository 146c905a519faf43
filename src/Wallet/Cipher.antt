-- ===== src/Wallet/Cipher.antt =====
-- getPrk, getPBKDF2, getAESData and getPBEData. The two modes are two functions each; the value
-- of any other mode, undefined, is never asked for.
use moa_crypto.Common.{ℕ, ◌*◌, Option, none, some}
use moa_crypto.Text.{Text, substr}
use moa_crypto.CryptoModule.{CryptoModule, CipherParams}
use moa_crypto.Wallet.{options}

-- data.cnt == undefined ? options.ITERATION_COUNT : data.cnt
abbrev pub iterations_or_default : Option ℕ → ℕ
iterations_or_default none = options.iteration_count
iterations_or_default (some cnt) = cnt

module _ (c : CryptoModule) where
  open c use {
    WordArray, hex_stringify, hex_parse, base64_stringify, utf8_parse, pbkdf2_sha384, ctr_encrypt,
    ctr_decrypt, pbe_encrypt, pbe_decrypt,
  }

  -- The derived key in hexadecimal: 384 bits.
  unfoldable pub get_pbkdf2 : (psw : Text) (salt : WordArray) (cnt : Option ℕ) → Text
  get_pbkdf2 psw salt cnt =
      hex_stringify (pbkdf2_sha384 (utf8_parse psw) salt 12 (iterations_or_default cnt))

  unfoldable pub aes_key : (psw : Text) (salt : WordArray) → WordArray
  unfolding get_pbkdf2
  aes_key psw salt = hex_parse (substr (get_pbkdf2 psw salt none) 0 (32 * 2))

  unfoldable pub aes_iv : (psw : Text) (salt : WordArray) → WordArray
  unfolding get_pbkdf2
  aes_iv psw salt = hex_parse (substr (get_pbkdf2 psw salt none) (32 * 2) (16 * 2))

  -- getAESData(ENCRYPT, { target, psw, salt })
  unfoldable pub encrypt_aes_data : (target psw : Text) (salt : WordArray) → CipherParams WordArray
  encrypt_aes_data target psw salt =
      ctr_encrypt (hex_parse target) (aes_key psw salt) (aes_iv psw salt)

  -- getAESData(DECRYPT, { target, psw, salt })
  unfoldable pub decrypt_aes_data : (target psw : Text) (salt : WordArray) → WordArray
  decrypt_aes_data target psw salt = ctr_decrypt target (aes_key psw salt) (aes_iv psw salt)

  -- getPBEData(ENCRYPT, { target, psw }): the cipher draws its own salt.
  unfoldable pub encrypt_pbe_data : (drawn target : WordArray) (psw : Text) → CipherParams WordArray
  encrypt_pbe_data drawn target psw = pbe_encrypt drawn target psw

  -- getPBEData(DECRYPT, { target, psw })
  unfoldable pub decrypt_pbe_data : (target psw : Text) → WordArray
  decrypt_pbe_data target psw = pbe_decrypt target psw

  -- getPrk(ENCRYPT, data): AES first, then the password-based cipher over its ciphertext.
  unfoldable pub encrypt_prk :
      (drawn : WordArray) (target psw : Text) (salt : WordArray) → CipherParams WordArray
  encrypt_prk drawn target psw salt =
      let first_enc = encrypt_aes_data target psw salt in
      encrypt_pbe_data drawn first_enc.ciphertext psw

  -- getPrk(DECRYPT, data)
  unfoldable pub decrypt_prk : (target psw : Text) (salt : WordArray) → WordArray
  decrypt_prk target psw salt =
      let first_dec = decrypt_pbe_data target psw in
      decrypt_aes_data (base64_stringify first_dec) psw salt
