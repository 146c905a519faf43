-- ===== src/CryptoJs/ModeLaws.antt =====
-- The modes give back what they were given.
use moa_crypto.Common.{◌≡◌, refl, ap, ◌∙◌, List, [], ◌∷◌}
use moa_crypto.Common.Bits.{bit_xor_twice}
use mathlib.Core.Path.{ap₂}
use moa_crypto.CryptoJs.Modes.{
  Block, Cipher, Chain, xor_words, xor_block, cbc_encrypt_block, cbc_decrypt_block,
  ctr_process_block, process_blocks,
}

pub xor_words_twice : (words block : Block) → xor_words (xor_words words block) block ≡ words
xor_words_twice [] block = refl
xor_words_twice (word ∷ words) [] = refl
xor_words_twice (word ∷ words) (other ∷ block) =
    ap₂ (λ w r. w ∷ r) (bit_xor_twice word other) (xor_words_twice words block)

-- Counter mode is its own inverse, whatever the cipher and the counter: decryption is encryption,
-- and the two together give the blocks back.
pub ctr_twice :
    (cipher : Cipher) (chain : Chain) (blocks : List Block)
    → process_blocks
        (ctr_process_block cipher)
        chain
        (process_blocks (ctr_process_block cipher) chain blocks)
      ≡ blocks
unfolding process_blocks ctr_process_block
ctr_twice cipher chain [] = refl
ctr_twice cipher chain (words ∷ rest) =
    ap₂ (λ w r. w ∷ r) (xor_words_twice words _)
      (ctr_twice cipher (ctr_process_block cipher chain words).1 rest)

-- Decryption in CBC mode undoes encryption from the same state, where the cipher decrypts each
-- block that it encrypted.
pub cbc_decrypt-cbc_encrypt :
    (cipher : Cipher) (chain : Chain) (blocks : List Block)
    → ((words : Block) → cipher.decrypt_block (cipher.encrypt_block words) ≡ words)
    → process_blocks
        (cbc_decrypt_block cipher)
        chain
        (process_blocks (cbc_encrypt_block cipher) chain blocks)
      ≡ blocks
unfolding process_blocks cbc_decrypt_block cbc_encrypt_block
cbc_decrypt-cbc_encrypt cipher chain [] back = refl
cbc_decrypt-cbc_encrypt cipher chain (words ∷ rest) back =
    ap₂ (λ w r. w ∷ r)
      (ap (xor_block chain) (back (xor_block chain words)) ∙ xor_words_twice words _)
      (cbc_decrypt-cbc_encrypt cipher (cbc_encrypt_block cipher chain words).1 rest back)
