-- ===== src/CryptoJs/Modes.antt =====
-- CryptoJS.mode.CBC and CryptoJS.mode.CTR over a block cipher. processBlock(words, offset) reads and
-- writes the words of one block only, so it is a function on the block; the mode's members are its
-- state.
use Prim.Native.Nat.{bit_xor}
use moa_crypto.Common.{ℕ, zero, suc, ◌+◌, ◌-◌, ◌%◌, ◌^◌, List, [], ◌∷◌, Option, none, some}

abbrev pub Block : Type 0
Block = List ℕ

-- The cipher that a mode drives: encryptBlock and decryptBlock on a block of words.
pub record Cipher : Type 0 where
  pub block_size : ℕ
  pub encrypt_block : Block → Block
  pub decrypt_block : Block → Block

-- words[offset + i] ^= block[i]; what the second block lacks counts as 0.
abbrev pub xor_words : Block → Block → Block
xor_words [] block = []
xor_words (word ∷ words) [] = word ∷ words
xor_words (word ∷ words) (other ∷ block) = bit_xor word other ∷ xor_words words block

-- _iv, which is removed after the first block, and _prevBlock; `none` is undefined.
pub record Chain : Type 0 where
  pub iv : Option Block
  pub prev_block : Block

-- BlockCipherMode.init
abbrev pub chain_init : (iv : Block) → Chain
chain_init iv = record { iv = some iv; prev_block = [] }

-- The block that is mixed in.
abbrev pub mixing : Option Block → Block → Block
mixing none prev_block = prev_block
mixing (some iv) prev_block = iv

-- xorBlock: the mixed block.
abbrev pub xor_block : Chain → Block → Block
xor_block chain words = xor_words words (mixing chain.iv chain.prev_block)

module _ (cipher : Cipher) where
  -- CBC.Encryptor.processBlock and CBC.Decryptor.processBlock
  unfoldable pub cbc_encrypt_block : Chain → Block → Block × Chain
  cbc_encrypt_block chain words =
      let result = cipher.encrypt_block (xor_block chain words) in
      (result, record { iv = none; prev_block = result })

  unfoldable pub cbc_decrypt_block : Chain → Block → Block × Chain
  cbc_decrypt_block chain words =
      (xor_block chain (cipher.decrypt_block words), record { iv = none; prev_block = words })

  -- counter[blockSize - 1] = (counter[blockSize - 1] + 1) | 0
  abbrev pub increment : (place : ℕ) → Block → Block
  increment place [] = []
  increment zero (word ∷ counter) = ((word + 1) % 2 ^ 32) ∷ counter
  increment (suc place) (word ∷ counter) = word ∷ increment place counter

  -- CTR.Encryptor.processBlock, which is CTR.Decryptor.processBlock too: the counter is in
  -- prev_block's place.
  unfoldable pub ctr_process_block : Chain → Block → Block × Chain
  ctr_process_block chain words =
      let counter = mixing chain.iv chain.prev_block in
      let keystream = cipher.encrypt_block counter in
      (
        xor_words words keystream,
        record { iv = none; prev_block = increment (cipher.block_size - 1) counter },
      )

-- The blocks of _process, one after the other.
unfoldable pub process_blocks : (Chain → Block → Block × Chain) → Chain → List Block → List Block
process_blocks step chain [] = []
process_blocks step chain (words ∷ rest) =
    let (result, next) = step chain words in result ∷ process_blocks step next rest
