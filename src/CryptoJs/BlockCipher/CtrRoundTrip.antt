-- ===== src/CryptoJs/BlockCipher/CtrRoundTrip.antt =====
-- A cipher in counter mode without padding: a message of any size comes back from any array with
-- the bytes of its ciphertext.
use Prim.Native.Nat.{bit_xor}
use moa_crypto.Common.{◌≡◌, refl, ◌∙◌, ap, ℕ, ◌+◌, ◌-◌, ◌*◌, ◌/◌, ◌%◌, ◌<◌, arith, min, true, ltb}
use moa_crypto.Common.Bits.{bit_xor_twice}
use moa_crypto.CryptoJs.{Words, WordArray, byte_at, bytes}
use moa_crypto.CryptoJs.Bytes.{bytes_from_same}
use moa_crypto.CryptoJs.Xor.{byte_of-bit_xor}
use moa_crypto.CryptoJs.Join.{truncate}
use moa_crypto.CryptoJs.Modes.{Block, Cipher, Chain, chain_init}
use moa_crypto.CryptoJs.Buffer.{slice, process_loop, process, append}
use moa_crypto.CryptoJs.Append.{
  appended, sig_bytes-appended, appended_at, byte_at-of_bytes, sig_bytes-of_bytes,
}
use moa_crypto.CryptoJs.BlockCipher.{
  XformMode, enc_xform_mode, dec_xform_mode, Cfg, ctr, without_padding, algorithm, cipher_reset,
  finalize,
}
use moa_crypto.CryptoJs.BlockCipher.Counter.{stream_of, counter_loop}
use moa_crypto.CryptoJs.BlockCipher.CbcRoundTrip.{four_words}

module _ (encrypt_block decrypt_block : Block → Block) (iv : WordArray) where
  abbrev cipher : Cipher
  cipher = four_words encrypt_block decrypt_block

  abbrev cfg : Cfg
  cfg = record { mode = ctr; padding = without_padding; iv = iv }

  abbrev start : Chain
  start = chain_init (slice iv.words 0 4)

  abbrev pub ctr_finalize : XformMode → WordArray → WordArray
  ctr_finalize xform_mode v = finalize xform_mode cipher cfg (cipher_reset xform_mode cipher cfg) v

  -- The number of blocks that so many bytes need.
  abbrev blocks_of : ℕ → ℕ
  blocks_of sig_bytes = (sig_bytes + 16 - 1) / 16

  -- The stream for so many bytes.
  abbrev stream : ℕ → Words
  stream sig_bytes = stream_of cipher (blocks_of sig_bytes) start 0

  looped : XformMode → (count : ℕ) → WordArray → Words
  looped xform_mode count v =
      (process_loop (algorithm xform_mode cipher cfg) start (appended v).words 0 count).0

  ctr_finalize_lem :
      (xform_mode : XformMode) (v : WordArray)
      → ctr_finalize xform_mode v ≡ record {
        words =
            truncate
              (looped xform_mode (blocks_of (appended v).sig_bytes) v)
              (blocks_of (appended v).sig_bytes * 4);
        sig_bytes = min (blocks_of (appended v).sig_bytes * 4 * 4) (appended v).sig_bytes;
      }
  unfolding finalize append process looped
  ctr_finalize_lem enc_xform_mode v = refl
  ctr_finalize_lem dec_xform_mode v = refl

  looped_at :
      (xform_mode : XformMode) (count : ℕ) (v : WordArray) (i : ℕ)
      → i < count * 4
      → looped xform_mode count v i
        ≡ bit_xor ((appended v).words i) (stream_of cipher count start 0 i)
  unfolding looped
  looped_at enc_xform_mode count v i h =
      (counter_loop cipher 0 count start (appended v).words 0).1 i (omega arith) (omega arith)
  looped_at dec_xform_mode count v i h =
      (counter_loop cipher 1 count start (appended v).words 0).1 i (omega arith) (omega arith)

  module _ (xform_mode : XformMode) (v : WordArray) where
    pub sig_bytes-ctr : (ctr_finalize xform_mode v).sig_bytes ≡ v.sig_bytes
    sig_bytes-ctr =
        ap (λ (w : WordArray). w.sig_bytes) (ctr_finalize_lem xform_mode v)
        ∙ omega (arith, sig_bytes-appended v)

    -- Each byte is mixed with that of the stream.
    pub byte_at-ctr :
        (i : ℕ)
        → i < v.sig_bytes
        → byte_at (ctr_finalize xform_mode v).words i
          ≡ bit_xor (byte_at v.words i) (byte_at (stream v.sig_bytes) i)
    byte_at-ctr i h =
        let size = sig_bytes-appended v in
        let test : ltb (i / 4) (blocks_of v.sig_bytes * 4) ≡ true = ground arith in
        ap (λ (w : WordArray). byte_at w.words i) (ctr_finalize_lem xform_mode v)
        ∙ rw
            (
              size,
              test,
              looped_at xform_mode (blocks_of v.sig_bytes) v (i / 4) (omega arith),
              appended_at v (i / 4) (omega arith),
            )
            (byte_of-bit_xor (v.words (i / 4)) (stream v.sig_bytes (i / 4)) (i % 4) (omega arith))

  -- In counter mode without padding, the decryptor gives a message of any size back from any
  -- array that has the bytes of its ciphertext, whatever the block cipher and the initial vector.
  pub ctr_decrypts :
      (m v : WordArray)
      → bytes v ≡ bytes (ctr_finalize enc_xform_mode m)
      → bytes (ctr_finalize dec_xform_mode v) ≡ bytes m
  ctr_decrypts m v same =
      let size : v.sig_bytes ≡ m.sig_bytes =
        sig_bytes-of_bytes v (ctr_finalize enc_xform_mode m) same
        ∙ sig_bytes-ctr enc_xform_mode m in
      let all : (ctr_finalize dec_xform_mode v).sig_bytes ≡ m.sig_bytes =
        sig_bytes-ctr dec_xform_mode v ∙ size in
      rw all (
        bytes_from_same (ctr_finalize dec_xform_mode v).words m.words 0 m.sig_bytes (λ i p q.
          let given =
            byte_at-of_bytes v (ctr_finalize enc_xform_mode m) same i
              (omega (arith, sig_bytes-ctr enc_xform_mode m)) in
          byte_at-ctr dec_xform_mode v i (omega (arith, size))
          ∙ rw (size, given, byte_at-ctr enc_xform_mode m i (omega arith)) (bit_xor_twice _ _)))
