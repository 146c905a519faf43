-- ===== src/CryptoJs/Hmac.antt =====
-- CryptoJS.algo.HMAC and CryptoJS.algo.PBKDF2 over a hasher. A key or message that is a string is
-- parsed by the caller.
use Prim.Native.Nat.{bit_xor}
use moa_crypto.Common.{ℕ, zero, suc, ◌+◌, ◌-◌, ◌*◌, ◌/◌, ltb, if◌then◌else◌, [], ◌∷◌}
use mathlib.Core.Option.{none}
use moa_crypto.CryptoJs.{Words, WordArray}
use moa_crypto.CryptoJs.Join.{init, clamp, concat}

-- The members of a hasher that HMAC uses. A hasher that is made is reset.
pub record HasherOps : Type 1 where
  pub State : Type 0
  pub block_size : ℕ
  pub fresh : State
  pub update : State → WordArray → State
  pub finalize : State → WordArray → WordArray

-- The words from 0 to a count, under exclusive or with a constant.
abbrev pub xor_pad : (count constant : ℕ) → Words → Words
xor_pad count constant words i = if ltb i count then bit_xor (words i) constant else words i

-- _oKey, _iKey and _hasher
pub record Hmac (S : Type 0) : Type 0 where
  pub o_key : WordArray
  pub i_key : WordArray
  pub hasher : S

module _ (ops : HasherOps) where
  -- A key that is longer than a block is hashed.
  abbrev pub short_key : WordArray → WordArray
  short_key key =
      clamp (if ltb (ops.block_size * 4) key.sig_bytes then ops.finalize ops.fresh key else key)

  abbrev pub keyed : (constant : ℕ) → WordArray → WordArray
  keyed constant key = record {
    words = xor_pad ops.block_size constant key.words;
    sig_bytes = ops.block_size * 4;
  }

  unfoldable pub hmac_reset : Hmac ops.State → Hmac ops.State
  hmac_reset h = record h { hasher = ops.update ops.fresh h.i_key }

  unfoldable pub hmac_init : WordArray → Hmac ops.State
  unfolding hmac_reset
  hmac_init key = hmac_reset (record {
    o_key = keyed 0x5c5c5c5c (short_key key);
    i_key = keyed 0x36363636 (short_key key);
    hasher = ops.fresh;
  })

  unfoldable pub hmac_update : Hmac ops.State → WordArray → Hmac ops.State
  hmac_update h message_update = record h { hasher = ops.update h.hasher message_update }

  -- The hash of the outer key and the inner hash.
  unfoldable pub hmac_finalize : Hmac ops.State → WordArray → WordArray
  unfolding concat
  hmac_finalize h message_update =
      ops.finalize ops.fresh (concat h.o_key (ops.finalize h.hasher message_update))

  -- Hasher._createHmacHelper
  unfoldable pub hmac : (message key : WordArray) → WordArray
  unfolding hmac_init hmac_finalize
  hmac message key = hmac_finalize (hmac_init key) message

  -- The iterations of PBKDF2 from the intermediate value on: each is mixed into the block. HMAC is
  -- reset behind each, so it is the one that init leaves.
  unfoldable pub iterate :
      Hmac ops.State → (iterations : ℕ) → (intermediate block : WordArray) → WordArray
  unfolding hmac_finalize
  iterate h zero intermediate block = block
  iterate h (suc iterations) intermediate block =
      let next = hmac_finalize h intermediate in
      iterate h iterations next (record block {
        words = λ j.
            if ltb j ((block.sig_bytes + 3) / 4)
            then bit_xor (block.words j) (next.words j)
            else block.words j;
      })

  -- One block of the derived key.
  unfoldable pub derive_block :
      Hmac ops.State → (salt : WordArray) (iterations block_index : ℕ) → WordArray
  unfolding hmac_finalize hmac_update iterate
  derive_block h salt iterations block_index =
      let block = hmac_finalize (hmac_update h salt) (init (block_index ∷ []) none) in
      iterate h (iterations - 1) block block

  -- The loop of compute: the fuel is the number of words wanted, since each block has some.
  unfoldable pub derive_from :
      (fuel : ℕ)
      → Hmac ops.State
      → (salt : WordArray) (key_size iterations block_index : ℕ) → WordArray
      → WordArray
  unfolding derive_block
  derive_from zero h salt key_size iterations block_index derived_key = derived_key
  derive_from (suc fuel) h salt key_size iterations block_index derived_key =
      let more =
        derive_from fuel h salt key_size iterations (block_index + 1)
          (concat derived_key (derive_block h salt iterations block_index)) in
      if ltb ((derived_key.sig_bytes + 3) / 4) key_size then more else derived_key

  unfoldable pub pbkdf2 : (password salt : WordArray) (key_size iterations : ℕ) → WordArray
  unfolding derive_from hmac_init
  pbkdf2 password salt key_size iterations =
      record (derive_from key_size (hmac_init password) salt key_size iterations 1 (init [] none)) {
        sig_bytes = key_size * 4;
      }
