-- ===== src/CryptoJs/OpenSsl.antt =====
-- CryptoJS.format.OpenSSL.
pub mod FormatLaws
use moa_crypto.Common.{◌+◌, ◌-◌, Option, none, some, [], ◌∷◌, if◌then◌else◌, ◌==◌, ◌&&◌}
use moa_crypto.Text.{Text}
use moa_crypto.CryptoJs.{WordArray}
use moa_crypto.CryptoJs.Join.{init, truncate, concat}
use moa_crypto.CryptoJs.Base64.{stringify, parse}

-- The members of cipher parameters that the formatter reads.
pub record Params : Type 0 where
  pub ciphertext : WordArray
  pub salt : Option WordArray

-- "Salted__"
abbrev pub salted : WordArray
salted = init (0x53616c74 ∷ 0x65645f5f ∷ []) none

abbrev pub formatted : WordArray → Option WordArray → WordArray
formatted ciphertext none = ciphertext
formatted ciphertext (some salt) = concat (concat salted salt) ciphertext

unfoldable pub format : Params → Text
unfolding stringify concat
format p = stringify (formatted p.ciphertext p.salt)

-- The salt is two words, and 16 bytes are taken off the front.
unfoldable pub unformat : Text → Params
unfolding parse
unformat open_ssl_str =
    let ciphertext = parse open_ssl_str in
    if (ciphertext.words 0 == 0x53616c74) && (ciphertext.words 1 == 0x65645f5f)
    then record {
      ciphertext = record {
        words = λ i. ciphertext.words (4 + i);
        sig_bytes = ciphertext.sig_bytes - 16;
      };
      salt = some (record { words = truncate (λ i. ciphertext.words (2 + i)) 2; sig_bytes = 8 });
    }
    else record { ciphertext = ciphertext; salt = none }
