-- ===== src/CryptoJs/Tests/AesBlocks.antt =====
-- The block function of AES on the example vectors of FIPS 197.
use moa_crypto.Common.{◌≡◌, refl, [], ◌∷◌, none}
use moa_crypto.CryptoJs.{WordArray}
use moa_crypto.CryptoJs.Modes.{Block}
use moa_crypto.CryptoJs.Join.{init}
use moa_crypto.CryptoJs.AesTables.{tables}
use moa_crypto.CryptoJs.Aes.{encrypt_block, decrypt_block}

abbrev key_256 : WordArray
key_256 =
    init
      (0x00010203 ∷ 0x04050607 ∷ 0x08090a0b ∷ 0x0c0d0e0f ∷ 0x10111213 ∷ 0x14151617 ∷ 0x18191a1b
        ∷ 0x1c1d1e1f ∷ [])
      none

sbox_test : (tables.sbox 0x53 ≡ 0xed) × (tables.inv_sbox 0xed ≡ 0x53)
unfolding tables
sbox_test = (refl, refl)

abbrev text : Block
text = 0x00112233 ∷ 0x44556677 ∷ 0x8899aabb ∷ 0xccddeeff ∷ []

abbrev cipher_256 : Block
cipher_256 = 0x8ea2b7ca ∷ 0x516745bf ∷ 0xeafc4990 ∷ 0x4b496089 ∷ []

encrypt_block_test : encrypt_block key_256 text ≡ cipher_256
unfolding encrypt_block tables
encrypt_block_test = refl

decrypt_block_test : decrypt_block key_256 cipher_256 ≡ text
unfolding decrypt_block tables
decrypt_block_test = refl
