-- ===== src/Wallet/Password.antt =====
-- wordToByteArray, generateHmacPsw, decimalToHexString, getEncryptedHmacPsw and verifyPsw.
use Prim.Native.Nat.{bit_xor}
use moa_crypto.Common.{
  ℕ, zero, suc, ◌+◌, ◌-◌, ◌*◌, ◌/◌, ◌%◌, ◌^◌, ◌++◌, ◌∷◌, [], Bool, false, some, List, length,
  get_elem?, leb, ◌==◌, leb, if◌then◌else◌,
}
use moa_crypto.Text.{
  Text, codes, split, substr, substr_last, index_of, is_zero, to_radix, parse_int16, nan_to_zero,
}
use moa_crypto.Browser.{Result, member}
use moa_crypto.CryptoModule.{CryptoModule, openssl_stringify}
use moa_crypto.Wallet.Mac.{map_result}
use moa_crypto.Wallet.Cipher.{get_pbkdf2}

-- The four bytes of a word, the highest first: (word >> 8 * j) & 0xFF for j = 3, 2, 1, 0.
abbrev bytes_of_word : ℕ → List ℕ
bytes_of_word word =
    (word / 2 ^ 24 % 256) ∷ (word / 2 ^ 16 % 256) ∷ (word / 2 ^ 8 % 256) ∷ (word % 256) ∷ []

unfoldable pub word_to_byte_array : List ℕ → List ℕ
word_to_byte_array [] = []
word_to_byte_array (word ∷ rest) = bytes_of_word word ++ word_to_byte_array rest

-- arr[0] % 2 == 0; undefined % 2 is NaN.
abbrev pub first_is_even : List ℕ → Bool
first_is_even [] = false
first_is_even (b ∷ rest) = b % 2 == 0

-- A signed number; `negsuc n` is -(n + 1).
pub data ℤ : Type 0 where
  pos negsuc : ℕ → ℤ

-- `number = 0xFF + number + 1` for a negative number, and two digits of the result.
unfoldable pub decimal_to_hex_string : ℤ → Text
unfolding to_radix
decimal_to_hex_string (pos n) = substr_last (codes "00" ++ to_radix (suc n) 16 n []) 2
decimal_to_hex_string (negsuc n) =
    if leb n 255
    then substr_last (codes "00" ++ to_radix 256 16 (255 - n) []) 2
    else substr_last (codes "00-" ++ to_radix (suc n) 16 (n - 255) []) 2

-- The loop of getEncryptedHmacPsw, `rounds` rounds from the index i: the two digits at i and those
-- half a text further on, under exclusive or.
unfoldable pub half_hmac : (rounds i : ℕ) (hmac : Text) → Text
half_hmac zero i hmac = []
half_hmac (suc rounds) i hmac =
    decimal_to_hex_string (
      pos (
        bit_xor (nan_to_zero (parse_int16 (substr hmac i 2)))
          (nan_to_zero (parse_int16 (substr hmac (length hmac / 2 + i) 2)))))
    ++ half_hmac rounds (i + 2) hmac

module _ (c : CryptoModule) where
  open c use {
    WordArray, hex_stringify, hex_parse, base64_stringify, base64_parse, utf8_parse, sha256,
    hmac_sha256, cbc_encrypt,
  }

  unfoldable pub generate_hmac_psw : Text → Text
  unfolding word_to_byte_array
  generate_hmac_psw psw =
      let hash = sha256 (utf8_parse psw) in
      let hmac = hex_stringify (hmac_sha256 (utf8_parse psw) hash) in
      if first_is_even (word_to_byte_array (c.words hash))
      then substr hmac (14 * 2) (14 * 2)
      else substr hmac 0 (14 * 2)

  pub get_hmac_psw : Text → Text
  get_hmac_psw psw = generate_hmac_psw psw

  -- `drawn` is the random byte that is put in front.
  unfoldable pub get_encrypted_hmac_psw : (drawn : WordArray) (id psw date_of_birth : Text) → Text
  unfolding generate_hmac_psw half_hmac get_pbkdf2
  get_encrypted_hmac_psw drawn id psw date_of_birth =
      let hmac = generate_hmac_psw psw in
      let derivation_key = get_pbkdf2 c date_of_birth (utf8_parse id) (some 10) in
      let encrypted_hmac = openssl_stringify c (
        cbc_encrypt (hex_parse (hex_stringify drawn ++ hmac))
          (hex_parse (substr derivation_key 0 (32 * 2)))
          (hex_parse (substr derivation_key (32 * 2) (16 * 2)))) in
      let hmac_encrypted_hmac =
        hex_stringify (hmac_sha256 (base64_parse encrypted_hmac) (utf8_parse date_of_birth)) in
      hex_stringify (base64_parse encrypted_hmac)
      ++ half_hmac ((length hmac_encrypted_hmac / 2 + 1) / 2) 0 hmac_encrypted_hmac

  -- The comparison of verifyPsw, on the hexadecimal of the fourth field.
  unfoldable pub check_psw : (psw field : Text) → Bool
  unfolding index_of
  check_psw psw field =
      let encrypted_puk = substr field 0 (65 * 2) in
      let hmac_encrypted_puk = substr field (65 * 2) (32 * 2) in
      let new_hmac_encrypted_puk =
        hex_stringify (hmac_sha256 (hex_parse encrypted_puk) (utf8_parse psw)) in
      is_zero (index_of hmac_encrypted_puk new_hmac_encrypted_puk)

  unfoldable pub verify_psw : (psw msg : Text) → Result Bool
  unfolding check_psw
  verify_psw psw msg =
      map_result (λ field. check_psw psw (hex_stringify (base64_parse field)))
        (member (get_elem? (split b'$' msg) 3))
