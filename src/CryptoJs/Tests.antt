-- ===== src/CryptoJs/Tests.antt =====
-- The bundle's code on known inputs, and its theorems at concrete ones.
mod AesBlocks
use moa_crypto.Common.{◌≡◌, refl, [], ◌∷◌, some, none, ◌/◌}
use moa_crypto.Text.{codes}
use moa_crypto.CryptoJs.{bytes, bytes_from, byte_of, or_byte}
use moa_crypto.CryptoJs.Join.{init}
use moa_crypto.CryptoJs.Sha256.{get_fractional_bits, hash_of, do_process_block, update, finalize}
use moa_crypto.CryptoJs.Base64.{stringify, parse}
use moa_crypto.CryptoJs.Hex
use moa_crypto.CryptoJs.Latin1
use moa_crypto.CryptoJs.HmacSha256.{hmac_sha256}

constants_test : (get_fractional_bits 2 2 ≡ 0x6a09e667) × (get_fractional_bits 3 311 ≡ 0xc67178f2)
constants_test = (refl, refl)

sha256_test : (hash_of (init (0x61626300 ∷ []) (some 3))).words 0 ≡ 0xba7816bf
unfolding hash_of do_process_block or_byte
sha256_test = refl

base64_test :
    (stringify (init (0x616263fe ∷ []) none) ≡ codes "YWJj/g==")
    × (bytes (parse (codes "YWJj/g==")) ≡ 0x61 ∷ 0x62 ∷ 0x63 ∷ 0xfe ∷ [])
unfolding stringify parse bytes_from byte_of
base64_test = (refl, refl)

hmac_test :
    (hmac_sha256
        (Latin1.parse (codes "what do ya want for nothing?"))
        (Latin1.parse (codes "Jefe"))).words
      0
    ≡ 0x5bdcc146
unfolding hmac_sha256 Latin1.parse do_process_block or_byte finalize update
hmac_test = refl
