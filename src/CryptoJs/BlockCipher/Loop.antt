-- ===== src/CryptoJs/BlockCipher/Loop.antt =====
-- The loop of _process over the blocks of a buffer, and a second loop that undoes it.
use moa_crypto.Common.{
  ◌≡◌, refl, ◌∙◌, ap, ℕ, zero, suc, ◌+◌, ◌^◌, ◌≤◌, ◌<◌, arith, [], ◌∷◌, length, All, Bool-cases,
  inl, inr, ◌==◌, ==_iff, ne_of_==, ◌⊎◌,
}
use mathlib.Core.Path.{ap₂}
use moa_crypto.CryptoJs.{Words, set}
use moa_crypto.CryptoJs.Fill.{AreWords}
use moa_crypto.CryptoJs.Bytes.{set_here, set_elsewhere}
use moa_crypto.CryptoJs.Modes.{Block}
use moa_crypto.CryptoJs.Buffer.{Algorithm, slice, write_block, process_loop}

abbrev pub IsBlock : ℕ → Block → Type 0
IsBlock size block = (length block ≡ size) × All (λ word. word < 2 ^ 32) block

pub length-slice : (words : Words) (offset count : ℕ) → length (slice words offset count) ≡ count
length-slice words offset zero = refl
length-slice words offset (suc count) = ap suc (length-slice words (suc offset) count)

slice-All :
    (words : Words)
    → AreWords words
    → (offset count : ℕ) → All (λ word. word < 2 ^ 32) (slice words offset count)
slice-All words w offset zero = tt
slice-All words w offset (suc count) = (w offset, slice-All words w (suc offset) count)

pub slice-IsBlock :
    (words : Words) → AreWords words → (offset count : ℕ) → IsBlock count (slice words offset count)
slice-IsBlock words w offset count =
    (length-slice words offset count, slice-All words w offset count)

pub slice_same :
    (v w : Words) (offset count : ℕ)
    → ((i : ℕ) → offset ≤ i → i < offset + count → v i ≡ w i)
    → slice v offset count ≡ slice w offset count
slice_same v w offset zero same = refl
slice_same v w offset (suc count) same =
    ap₂ (λ a r. a ∷ r) (same offset (omega arith) (omega arith))
      (slice_same v w (suc offset) count (λ i p q. same i (omega arith) (omega arith)))

-- Outside the block nothing is written.
pub write_block-outside :
    (words : Words) (offset : ℕ) (block : Block) (i : ℕ)
    → (i < offset) ⊎ (offset + length block ≤ i)
    → write_block words offset block i ≡ words i
write_block-outside words offset [] i h = refl
write_block-outside words offset (word ∷ block) i (inl h) =
    write_block-outside (set words offset word) (suc offset) block i (inl (omega arith))
    ∙ set_elsewhere words offset word i (λ e. omega arith)
write_block-outside words offset (word ∷ block) i (inr h) =
    write_block-outside (set words offset word) (suc offset) block i (inr (omega arith))
    ∙ set_elsewhere words offset word i (λ e. omega arith)

pub slice-write_block :
    (words : Words) (offset : ℕ) (block : Block)
    → slice (write_block words offset block) offset (length block) ≡ block
slice-write_block words offset [] = refl
slice-write_block words offset (word ∷ block) =
    ap₂ (λ a r. a ∷ r)
      (write_block-outside (set words offset word) (suc offset) block offset (inl (omega arith))
        ∙ set_here words offset word)
      (slice-write_block (set words offset word) (suc offset) block)

-- The words of a slice, written back.
pub write_block-slice :
    (words v : Words) (offset count : ℕ) (i : ℕ)
    → offset ≤ i
    → i < offset + count
    → write_block words offset (slice v offset count) i ≡ v i
write_block-slice words v offset zero i p q = absurd (omega arith)
write_block-slice words v offset (suc count) i p q = elim (Bool-cases (i == offset)) [
  | inl here ↦
      let e : i ≡ offset = (==_iff i offset).0 here in
      rw e (
        write_block-outside (set words offset (v offset)) (suc offset) (slice v (suc offset) count)
          offset (inl (omega arith))
        ∙ set_here words offset (v offset))
  | inr other ↦
      write_block-slice (set words offset (v offset)) v (suc offset) count i
        (omega (arith, ne_of_== i offset other)) (omega arith)
]

pub write_block-AreWords :
    (words : Words) (offset : ℕ) (block : Block)
    → AreWords words
    → All (λ word. word < 2 ^ 32) block
    → AreWords (write_block words offset block)
write_block-AreWords words offset [] w h = w
write_block-AreWords words offset (word ∷ block) w (l, h) =
    write_block-AreWords (set words offset word) (suc offset) block
      (λ i. elim (Bool-cases (i == offset)) [ inl here ↦ rw here l | inr other ↦ rw other (w i) ]) h

module _ (a : Algorithm) where
  -- The loop leaves what stands in front of its offset.
  pub process_loop-below :
      (size : (state : a.State) (block : Block)
        → length block ≡ a.block_size
        → length (a.do_process_block state block).0 ≡ a.block_size)
      → (blocks : ℕ) (state : a.State) (words : Words) (offset i : ℕ) → i < offset
      → (process_loop a state words offset blocks).0 i ≡ words i
  unfolding process_loop
  process_loop-below size zero state words offset i h = refl
  process_loop-below size (suc blocks) state words offset i h =
      let (result, next) = a.do_process_block state (slice words offset a.block_size) in
      process_loop-below size blocks next (write_block words offset result) (offset + a.block_size)
        i (omega arith)
      ∙ write_block-outside words offset result i (inl h)
