-- ===== src/CryptoJs/BlockCipher/Counter.antt =====
-- Counter mode over a whole buffer: each byte is mixed with that of a stream, which the key and the
-- counter make, and so the same stream takes it back.
use Prim.Native.Nat.{bit_xor}
use native.Mathlib.Nat.{suc-mul}
use moa_crypto.Common.{
  ◌≡◌, refl, ◌∙◌, sym, ap, ℕ, zero, suc, ◌+◌, ◌-◌, ◌*◌, ◌≤◌, ◌<◌, arith, length, Bool-cases, inl,
  inr, ltb, [], ◌∷◌, ◌==◌, ==_iff, ne_of_==, if◌then◌else◌,
}
use moa_crypto.Common.Bits.{bit_xor-zero}
use moa_crypto.CryptoJs.{Words, set}
use moa_crypto.CryptoJs.Bytes.{set_here}
use moa_crypto.CryptoJs.Join.{words_of}
use moa_crypto.CryptoJs.Modes.{Block, Cipher, Chain, mixing, xor_words, ctr_process_block}
use moa_crypto.CryptoJs.Buffer.{Algorithm, slice, write_block, process_loop}
use moa_crypto.CryptoJs.BlockCipher.Loop.{length-slice, write_block-outside, write_block-slice}

length-xor_words : (words block : Block) → length (xor_words words block) ≡ length words
length-xor_words [] block = refl
length-xor_words (word ∷ words) [] = refl
length-xor_words (word ∷ words) (other ∷ block) = ap suc (length-xor_words words block)

write_block-xor_words :
    (words v : Words) (offset count : ℕ) (stream : Block) (i : ℕ)
    → offset ≤ i
    → i < offset + count
    → write_block words offset (xor_words (slice v offset count) stream) i
      ≡ bit_xor (v i) (words_of stream (i - offset))
write_block-xor_words words v offset zero stream i p q = absurd (omega arith)
write_block-xor_words words v offset (suc count) [] i p q =
    write_block-slice words v offset (suc count) i p q ∙ sym (bit_xor-zero (v i))
write_block-xor_words words v offset (suc count) (other ∷ stream) i p q =
    elim (Bool-cases (i == offset)) [
      | inl here ↦
          let e : i ≡ offset = (==_iff i offset).0 here in
          let none_between : offset - offset ≡ 0 = omega arith in
          rw (e, none_between)
            (write_block-outside (set words offset (bit_xor (v offset) other)) (suc offset)
                (xor_words (slice v (suc offset) count) stream) offset (inl (omega arith))
              ∙ set_here words offset (bit_xor (v offset) other))
      | inr later ↦
          let after = ne_of_== i offset later in
          let e : i - offset ≡ suc (i - suc offset) = omega (arith, after) in
          rw e (
            write_block-xor_words (set words offset (bit_xor (v offset) other)) v (suc offset) count
              stream i (omega (arith, after)) (omega arith))
    ]

module _ (cipher : Cipher) where
  -- The words that counter mode makes for so many blocks from an offset on; they do not depend on
  -- what is encrypted.
  pub stream_of : (blocks : ℕ) → Chain → (offset : ℕ) → Words
  stream_of zero chain offset i = 0
  stream_of (suc blocks) chain offset i =
      let later =
        stream_of blocks (ctr_process_block cipher chain []).1 (offset + cipher.block_size) i in
      if ltb i (offset + cipher.block_size)
      then words_of (cipher.encrypt_block (mixing chain.iv chain.prev_block)) (i - offset)
      else later

module _ (cipher : Cipher) (min_buffer_size : ℕ) where
  abbrev counter_mode : Algorithm
  counter_mode = record {
    State = Chain;
    block_size = cipher.block_size;
    min_buffer_size = min_buffer_size;
    do_process_block = ctr_process_block cipher;
  }

  pub counter_loop :
      (blocks : ℕ) (chain : Chain) (words : Words) (offset : ℕ)
      → ((i : ℕ) → i < offset → (process_loop counter_mode chain words offset blocks).0 i ≡ words i)
        × ((i : ℕ)
            → offset ≤ i
            → i < offset + blocks * cipher.block_size
            → (process_loop counter_mode chain words offset blocks).0 i
              ≡ bit_xor (words i) (stream_of cipher blocks chain offset i))
  unfolding process_loop stream_of ctr_process_block
  counter_loop zero chain words offset = ((λ i h. refl), (λ i p q. absurd (omega arith)))
  counter_loop (suc blocks) chain words offset =
      let key = cipher.encrypt_block (mixing chain.iv chain.prev_block) in
      let block = xor_words (slice words offset cipher.block_size) key in
      let size =
        length-xor_words (slice words offset cipher.block_size) key
        ∙ length-slice words offset cipher.block_size in
      let more = suc-mul blocks cipher.block_size in
      let (below, back) =
        counter_loop blocks (ctr_process_block cipher chain []).1 (write_block words offset block)
          (offset + cipher.block_size) in
      (
        (λ i h. below i (omega arith) ∙ write_block-outside words offset block i (inl h)),
        (λ i p q. elim (Bool-cases (ltb i (offset + cipher.block_size))) [
          | inl here ↦
              let h : i < offset + cipher.block_size = ground arith in
              rw here
                (below i h ∙ write_block-xor_words words words offset cipher.block_size key i p h)
          | inr later ↦
              let h : offset + cipher.block_size ≤ i = ground arith in
              let outside = write_block-outside words offset block i (inr (omega (arith, size))) in
              rw later (
                back i h (omega (arith, more))
                ∙ ap
                    (λ w. bit_xor w (
                      stream_of cipher blocks (ctr_process_block cipher chain []).1
                        (offset + cipher.block_size) i))
                    outside)
        ]),
      )
