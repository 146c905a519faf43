-- ===== src/CryptoJs/Buffer.antt =====
-- CryptoJS.lib.BufferedBlockAlgorithm: the buffer, and the blocks that are taken from it.
use moa_crypto.Common.{ℕ, zero, suc, ◌+◌, ◌-◌, ◌*◌, ◌/◌, min, Bool, true, false, [], ◌∷◌}
use moa_crypto.CryptoJs.{Words, WordArray, no_words, set}
use moa_crypto.CryptoJs.Join.{truncate, concat}
use moa_crypto.CryptoJs.Modes.{Block}

-- _data and _nDataBytes
pub record Buffer : Type 0 where
  pub data_ : WordArray
  pub n_data_bytes : ℕ

abbrev pub reset : Buffer
reset = record { data_ = record { words = no_words; sig_bytes = 0 }; n_data_bytes = 0 }

-- A string is parsed by the caller.
unfoldable pub append : Buffer → WordArray → Buffer
unfolding concat
append b data_ = record {
  data_ = concat b.data_ data_;
  n_data_bytes = b.n_data_bytes + data_.sig_bytes;
}

-- words.slice(offset, offset + count), each place read as a number.
abbrev pub slice : Words → (offset count : ℕ) → Block
slice words offset zero = []
slice words offset (suc count) = words offset ∷ slice words (suc offset) count

abbrev pub write_block : Words → (offset : ℕ) → Block → Words
write_block words offset [] = words
write_block words offset (word ∷ rest) = write_block (set words offset word) (suc offset) rest

-- The concrete algorithm: its state, and what it makes of a block.
pub record Algorithm : Type 1 where
  pub State : Type 0
  pub block_size : ℕ
  pub min_buffer_size : ℕ
  pub do_process_block : State → Block → Block × State

-- The number of blocks that are ready.
abbrev pub blocks_ready : (do_flush : Bool) (sig_bytes block_size_bytes min_buffer_size : ℕ) → ℕ
blocks_ready true sig_bytes block_size_bytes min_buffer_size =
    (sig_bytes + block_size_bytes - 1) / block_size_bytes
blocks_ready false sig_bytes block_size_bytes min_buffer_size =
    sig_bytes / block_size_bytes - min_buffer_size

module _ (a : Algorithm) where
  -- The loop over the blocks, from an offset on.
  unfoldable pub process_loop : a.State → Words → (offset blocks : ℕ) → Words × a.State
  process_loop state words offset zero = (words, state)
  process_loop state words offset (suc blocks) =
      let (result, next) = a.do_process_block state (slice words offset a.block_size) in
      process_loop next (write_block words offset result) (offset + a.block_size) blocks

  -- The processed words, the buffer that is left, and the state.
  unfoldable pub process : (do_flush : Bool) → Buffer → a.State → WordArray × Buffer × a.State
  unfolding process_loop
  process do_flush b state =
      let n_blocks_ready =
        blocks_ready do_flush b.data_.sig_bytes (a.block_size * 4) a.min_buffer_size in
      let n_words_ready = n_blocks_ready * a.block_size in
      let n_bytes_ready = min (n_words_ready * 4) b.data_.sig_bytes in
      let (words, next) = process_loop state b.data_.words 0 n_blocks_ready in
      (
        record { words = truncate words n_words_ready; sig_bytes = n_bytes_ready },
        record {
          data_ = record {
            words = λ i. words (n_words_ready + i);
            sig_bytes = b.data_.sig_bytes - n_bytes_ready;
          };
          n_data_bytes = b.n_data_bytes;
        },
        next,
      )
