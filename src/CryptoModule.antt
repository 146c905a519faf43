-- ===== src/CryptoModule.antt =====
-- What the wallet scripts call of the bundled CryptoJS and jsrsasign
-- (JavascriptSrc/WebContent/wallet/moaCryptoJS/moaCryptoModule-v1.0.0.js): parameters, with the
-- documented behaviour that the theorems use as named laws. A string that CryptoJS is given in
-- place of a word array is read as UTF-8, so the calls below pass `utf8_parse` of it.
pub mod Toy
use moa_crypto.Common.{ℕ, ◌≡◌, Bool, true, false, Option, none, some, List, [], ◌∷◌, length, ◌++◌}
use moa_crypto.Text.{Text, codes, starts_with}
use moa_crypto.Text.Laws.{Free}
use moa_crypto.Text.Hex.{IsHex}

-- CryptoJS.lib.CipherParams, the members that the scripts and the formatter read.
pub record CipherParams (W : Type 0) : Type 0 where
  pub ciphertext : W
  pub salt : Option W

pub record CryptoModule : Type 1 where
  pub WordArray : Type 0
  pub words : WordArray → List ℕ
  -- CryptoJS.enc
  pub hex_stringify : WordArray → Text
  pub hex_parse : Text → WordArray
  pub base64_stringify : WordArray → Text
  pub base64_parse : Text → WordArray
  -- Of a string without lone surrogates; Utf8.parse throws a URIError on another, which the model
  -- leaves out.
  pub utf8_parse : Text → WordArray
  pub concat : WordArray → WordArray → WordArray
  -- CryptoJS.SHA256(message), CryptoJS.HmacSHA256(message, key)
  pub sha256 : WordArray → WordArray
  pub hmac_sha256 : WordArray → WordArray → WordArray
  -- CryptoJS.PBKDF2(password, salt, { keySize, hasher: SHA384, iterations })
  pub pbkdf2_sha384 : WordArray → WordArray → ℕ → ℕ → WordArray
  -- CryptoJS.AES.encrypt(message, key, { iv }): CTR with no padding, and CBC with Pkcs7
  pub ctr_encrypt : WordArray → WordArray → WordArray → CipherParams WordArray
  pub cbc_encrypt : WordArray → WordArray → WordArray → CipherParams WordArray
  -- CryptoJS.AES.decrypt(text, key, { iv }): CTR with no padding
  pub ctr_decrypt : Text → WordArray → WordArray → WordArray
  -- CryptoJS.lib.PasswordBasedCipher.encrypt(AES, message, password), with the 8 bytes of salt
  -- that it draws first, and decrypt(AES, text, password)
  pub pbe_encrypt : WordArray → WordArray → Text → CipherParams WordArray
  pub pbe_decrypt : Text → Text → WordArray

-- "Salted__", as the formatter writes it in front of a salt.
abbrev pub salted_prefix : Text
salted_prefix = codes "53616c7465645f5f"

module _ (c : CryptoModule) where
  open c use {
    WordArray, hex_stringify, hex_parse, base64_stringify, base64_parse, utf8_parse, concat, sha256,
    hmac_sha256, ctr_encrypt, ctr_decrypt, pbe_encrypt, pbe_decrypt,
  }

  -- CryptoJS.format.OpenSSL.stringify, which is toString() of cipher parameters.
  abbrev pub openssl_bytes : WordArray → Option WordArray → WordArray
  openssl_bytes ciphertext none = ciphertext
  openssl_bytes ciphertext (some salt) = concat (concat (hex_parse salted_prefix) salt) ciphertext

  abbrev pub openssl_stringify : CipherParams WordArray → Text
  openssl_stringify p = base64_stringify (openssl_bytes p.ciphertext p.salt)

  -- The encoders: parsing gives back what was written, hex is two lower-case digits a byte, and
  -- Base64 writes no "$" and no "%".
  pub record CodecLaws : Type 0 where
    pub hex_parse-hex_stringify : (w : WordArray) → hex_parse (hex_stringify w) ≡ w
    pub hex_stringify-hex_parse : (t : Text) → IsHex t → hex_stringify (hex_parse t) ≡ t
    pub hex_stringify-IsHex : (w : WordArray) → IsHex (hex_stringify w)
    pub base64_parse-base64_stringify : (w : WordArray) → base64_parse (base64_stringify w) ≡ w
    pub base64_no_dollar : (w : WordArray) → Free b'$' (base64_stringify w)
    pub base64_no_percent : (w : WordArray) → Free b'%' (base64_stringify w)
    pub hex_stringify-concat :
        (v w : WordArray) → hex_stringify (concat v w) ≡ hex_stringify v ++ hex_stringify w

  -- The digests have 32 bytes.
  pub record DigestLaws : Type 0 where
    pub length-sha256 : (w : WordArray) → length (hex_stringify (sha256 w)) ≡ 64
    pub length-hmac_sha256 : (w k : WordArray) → length (hex_stringify (hmac_sha256 w k)) ≡ 64

  -- Decryption undoes encryption under the same key. AES.decrypt takes a leading "Salted__" of the
  -- decoded text for a header, so a CTR ciphertext that happens to begin so is excluded.
  pub record CipherLaws : Type 0 where
    pub ctr-salt : (m k iv : WordArray) → (ctr_encrypt m k iv).salt ≡ none
    pub length-ctr :
        (m k iv : WordArray)
        → length (hex_stringify (ctr_encrypt m k iv).ciphertext) ≡ length (hex_stringify m)
    pub ctr_decrypt-ctr_encrypt :
        (m k iv : WordArray)
        → starts_with (hex_stringify (ctr_encrypt m k iv).ciphertext) salted_prefix ≡ false
        → ctr_decrypt (base64_stringify (ctr_encrypt m k iv).ciphertext) k iv ≡ m
    pub pbe_decrypt-pbe_encrypt :
        (s m : WordArray) (p : Text) → pbe_decrypt (openssl_stringify (pbe_encrypt s m p)) p ≡ m
