-- ===== src/Bundle.antt =====
-- The calls that the wallet makes of the bundle
-- (JavascriptSrc/WebContent/wallet/moaCryptoJS/moaCryptoModule-v1.0.0.js), by the code of the bundle
-- that CryptoJs models: an instance of the wallet's parameter CryptoModule. A word array stands here
-- for its bytes. SHA384, the derivation of a key from a password, and the conversion of the language to
-- UTF-8 are parameters.
pub mod Codecs
pub mod Ciphers
mod Tests
use moa_crypto.Common.{ℕ, ◌+◌, ◌/◌, List, [], length, Option, none, some}
use moa_crypto.Text.{Text}
use moa_crypto.CryptoModule.{CryptoModule, CipherParams}
use moa_crypto.CryptoJs.{Words, WordArray}
use moa_crypto.CryptoJs.Octets.{Octets, of_octets, to_octets}
use moa_crypto.CryptoJs.Join.{concat, truncate}
use moa_crypto.CryptoJs.Hex
use moa_crypto.CryptoJs.Base64
use moa_crypto.CryptoJs.Latin1.{Utf8Units, utf8_parse}
use moa_crypto.CryptoJs.Modes.{Block}
use moa_crypto.CryptoJs.Aes.{encrypt_block, decrypt_block}
use moa_crypto.CryptoJs.Buffer.{slice}
use moa_crypto.CryptoJs.Sha256.{hash_of}
use moa_crypto.CryptoJs.Hmac.{HasherOps, pbkdf2}
use moa_crypto.CryptoJs.HmacSha256.{hmac_sha256}
use moa_crypto.CryptoJs.OpenSsl.{Params}
use moa_crypto.CryptoJs.BlockCipher.{
  BlockAlgorithm, Cfg, cbc, ctr, pkcs7, without_padding, serializable_encrypt, serializable_decrypt,
  password_encrypt, password_decrypt,
}
use moa_crypto.CryptoJs.BlockCipher.CbcRoundTrip.{four_words}

-- What the model does not read of the bundle: EvpKDF's compute, the hasher SHA384, and the units of a
-- string in UTF-8.
pub record Primitives : Type 1 where
  pub compute : (key_size : ℕ) → Text → WordArray → WordArray
  pub sha384 : HasherOps
  pub utf8 : Utf8Units

-- CryptoJS.algo.AES: a key of 256 bits and an initial vector of 128.
abbrev pub aes : BlockAlgorithm
aes = record {
  key_size = 8;
  iv_size = 4;
  keyed = λ key. four_words (encrypt_block key) (decrypt_block key);
}

module _ (primitives : Primitives) where
  abbrev pub ctr_cfg : Octets → Cfg
  ctr_cfg iv = record { mode = ctr; padding = without_padding; iv = of_octets iv }

  abbrev pub cbc_cfg : Octets → Cfg
  cbc_cfg iv = record { mode = cbc; padding = pkcs7; iv = of_octets iv }

  -- The members of cipher parameters, as bytes.
  abbrev pub of_option : Option WordArray → Option Octets
  of_option none = none
  of_option (some w) = some (to_octets w)

  abbrev pub of_params : Params → CipherParams Octets
  of_params p = record { ciphertext = to_octets p.ciphertext; salt = of_option p.salt }

  -- WordArray.random(64/8): two words, whatever they are.
  abbrev pub two_words : Octets → WordArray
  two_words drawn = record { words = truncate (of_octets drawn).words 2; sig_bytes = 8 }

  -- A text without a salt would make the key derivation draw one, for which zeros stand here.
  abbrev pub bundle : CryptoModule
  bundle = record {
    WordArray = Octets;
    words = λ w. slice (of_octets w).words 0 ((length w.0 + 3) / 4);
    hex_stringify = λ w. Hex.stringify (of_octets w);
    hex_parse = λ t. to_octets (Hex.parse t);
    base64_stringify = λ w. Base64.stringify (of_octets w);
    base64_parse = λ t. to_octets (Base64.parse t);
    utf8_parse = λ t. to_octets (utf8_parse primitives.utf8 t);
    concat = λ v w. to_octets (concat (of_octets v) (of_octets w));
    sha256 = λ w. to_octets (hash_of (of_octets w));
    hmac_sha256 = λ w k. to_octets (hmac_sha256 (of_octets w) (of_octets k));
    pbkdf2_sha384 =
        λ p s size n. to_octets (pbkdf2 primitives.sha384 (of_octets p) (of_octets s) size n);
    ctr_encrypt =
        λ m k iv. of_params (serializable_encrypt aes (of_octets m) (of_octets k) (ctr_cfg iv));
    cbc_encrypt =
        λ m k iv. of_params (serializable_encrypt aes (of_octets m) (of_octets k) (cbc_cfg iv));
    ctr_decrypt = λ t k iv. to_octets (serializable_decrypt aes t (of_octets k) (ctr_cfg iv));
    pbe_encrypt =
        λ s m p. of_params (password_encrypt aes primitives.compute (two_words s) (of_octets m) p);
    pbe_decrypt =
        λ t p. to_octets (password_decrypt aes primitives.compute (two_words ([], tt)) t p);
  }
