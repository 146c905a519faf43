-- ===== src/CryptoJs/BlockCipher/Chained.antt =====
-- A mode whose Decryptor undoes its Encryptor block by block does so over a whole buffer.
use moa_crypto.Common.{
  ◌≡◌, refl, ◌∙◌, ap, ℕ, zero, suc, ◌+◌, ◌*◌, ◌≤◌, ◌<◌, arith, Bool-cases, inl, inr, ltb,
}
use native.Mathlib.Nat.{suc-mul}
use mathlib.Core.Path.{subst}
use moa_crypto.CryptoJs.{Words}
use moa_crypto.CryptoJs.Fill.{AreWords}
use moa_crypto.CryptoJs.Modes.{Block, Chain}
use moa_crypto.CryptoJs.Buffer.{Algorithm, slice, write_block, process_loop}
use moa_crypto.CryptoJs.BlockCipher.Loop.{
  IsBlock, length-slice, slice-IsBlock, slice_same, write_block-outside, slice-write_block,
  write_block-slice, write_block-AreWords,
}

-- What the two steps of a mode promise on states that are good.
pub record Undoes (size : ℕ) (encrypt decrypt : Chain → Block → Block × Chain) : Type 1 where
  pub IsGood : Chain → Type 0
  pub keeps_block :
      (chain : Chain) (block : Block)
      → IsGood chain
      → IsBlock size block
      → IsBlock size (encrypt chain block).0
  pub keeps_chain :
      (chain : Chain) (block : Block)
      → IsGood chain
      → IsBlock size block
      → IsGood (encrypt chain block).1
  pub undone :
      (chain : Chain) (block : Block)
      → IsGood chain
      → IsBlock size block
      → decrypt chain (encrypt chain block).0 ≡ (block, (encrypt chain block).1)

module _ (size min_buffer_size min_buffer_size' : ℕ)
    (encrypt decrypt : Chain → Block → Block × Chain) (u : Undoes size encrypt decrypt) where
  abbrev encryptor : Algorithm
  encryptor = record {
    State = Chain;
    block_size = size;
    min_buffer_size = min_buffer_size;
    do_process_block = encrypt;
  }

  abbrev decryptor : Algorithm
  decryptor = record {
    State = Chain;
    block_size = size;
    min_buffer_size = min_buffer_size';
    do_process_block = decrypt;
  }

  module _ (chain : Chain) (words : Words) (offset : ℕ) (good : u.IsGood chain)
      (w : AreWords words) where
    abbrev block : Block
    block = slice words offset size

    abbrev made : Block
    made = (encrypt chain block).0

    abbrev next : Chain
    next = (encrypt chain block).1

    made-IsBlock : IsBlock size made
    made-IsBlock = u.keeps_block chain block good (slice-IsBlock words w offset size)

    next_good : u.IsGood next
    next_good = u.keeps_chain chain block good (slice-IsBlock words w offset size)

    written-AreWords : AreWords (write_block words offset made)
    written-AreWords = write_block-AreWords words offset made w made-IsBlock.1

    made_undone : decrypt chain made ≡ (block, next)
    made_undone = u.undone chain block good (slice-IsBlock words w offset size)

  -- The loop keeps the words in range, and leaves what stands in front of it.
  pub loop_keeps :
      (blocks : ℕ) (chain : Chain) (words : Words) (offset : ℕ)
      → u.IsGood chain
      → AreWords words
      → AreWords (process_loop encryptor chain words offset blocks).0
        × ((i : ℕ) → i < offset → (process_loop encryptor chain words offset blocks).0 i ≡ words i)
  unfolding process_loop
  loop_keeps zero chain words offset good w = (w, (λ i h. refl))
  loop_keeps (suc blocks) chain words offset good w =
      let (kept, below) =
        loop_keeps blocks (next chain words offset good w)
          (write_block words offset (made chain words offset good w)) (offset + size)
          (next_good chain words offset good w) (written-AreWords chain words offset good w) in
      (
        kept,
        (λ i h.
            below i (omega arith)
            ∙ write_block-outside words offset (made chain words offset good w) i (inl h)),
      )

  decryptor_step :
      (blocks : ℕ) (chain after : Chain) (v : Words) (offset : ℕ) (words : Block)
      → decrypt chain (slice v offset size) ≡ (words, after)
      → process_loop decryptor chain v offset (suc blocks)
        ≡ process_loop decryptor after (write_block v offset words) (offset + size) blocks
  unfolding process_loop
  decryptor_step blocks chain after v offset words e =
      ap
        (λ (r : Block × Chain).
          process_loop decryptor r.1 (write_block v offset r.0) (offset + size) blocks)
        e

  -- Any words that agree with what the one loop made are taken back by the other.
  pub loop_undone :
      (blocks : ℕ) (chain : Chain) (words v : Words) (offset : ℕ)
      → u.IsGood chain
      → AreWords words
      → ((i : ℕ)
          → offset ≤ i
          → i < offset + blocks * size
          → v i ≡ (process_loop encryptor chain words offset blocks).0 i)
      → ((i : ℕ) → i < offset → (process_loop decryptor chain v offset blocks).0 i ≡ v i)
        × ((i : ℕ)
            → offset ≤ i
            → i < offset + blocks * size
            → (process_loop decryptor chain v offset blocks).0 i ≡ words i)
  unfolding process_loop
  loop_undone zero chain words v offset good w same =
      ((λ i h. refl), (λ i p q. absurd (omega arith)))
  loop_undone (suc blocks) chain words v offset good w same =
      let b = block chain words offset good w in
      let m = made chain words offset good w in
      let s = next chain words offset good w in
      let more = suc-mul blocks size in
      let b_size = length-slice words offset size in
      let m_size = (made-IsBlock chain words offset good w).0 in
      let (_, front) =
        loop_keeps blocks s (write_block words offset m) (offset + size)
          (next_good chain words offset good w) (written-AreWords chain words offset good w) in
      let read : slice v offset size ≡ m =
        slice_same v (write_block words offset m) offset size
          (λ i p q. same i p (omega (arith, more)) ∙ front i q)
        ∙ subst (λ n. slice (write_block words offset m) offset n ≡ m) m_size
            (slice-write_block words offset m) in
      let (below, back) =
        loop_undone blocks s (write_block words offset m) (write_block v offset b) (offset + size)
          (next_good chain words offset good w) (written-AreWords chain words offset good w)
          (λ i p q.
            write_block-outside v offset b i (inr (omega (arith, b_size)))
            ∙ same i (omega arith) (omega (arith, more))) in
      rw
        (decryptor_step blocks chain s v offset b
          (ap (decrypt chain) read ∙ made_undone chain words offset good w))
        (
          (λ i h. below i (omega arith) ∙ write_block-outside v offset b i (inl h)),
          (λ i p q. elim (Bool-cases (ltb i (offset + size))) [
            | inl here ↦
                let h : i < offset + size = ground arith in
                below i h ∙ write_block-slice v words offset size i p h
            | inr later ↦
                let h : offset + size ≤ i = ground arith in
                back i h (omega (arith, more))
                ∙ write_block-outside words offset m i (inr (omega (arith, m_size)))
          ]),
        )
