-- ===== src/CryptoJs/BlockCipher.antt =====
-- CryptoJS.lib.Cipher, BlockCipher, SerializableCipher and PasswordBasedCipher over a block cipher,
-- which is a parameter, as is the derivation of a key from a password.
pub mod Loop
pub mod Counter
pub mod Chained
pub mod CbcRoundTrip
pub mod CtrRoundTrip
use moa_crypto.Common.{ℕ, ◌+◌, ◌*◌, Bool, true, false, none, some, Option}
use moa_crypto.Text.{Text}
use moa_crypto.CryptoJs.{Words, WordArray}
use moa_crypto.CryptoJs.Modes.{
  Block, Cipher, Chain, chain_init, cbc_encrypt_block, cbc_decrypt_block, ctr_process_block,
}
use moa_crypto.CryptoJs.Buffer.{Buffer, Algorithm, reset, append, slice, process}
use moa_crypto.CryptoJs.Pkcs7.{pad, unpad, no_padding}
use moa_crypto.CryptoJs.OpenSsl.{Params, format, unformat}

-- _ENC_XFORM_MODE and _DEC_XFORM_MODE
pub data XformMode : Type 0 where
  enc_xform_mode : XformMode
  dec_xform_mode : XformMode

-- A mode: processBlock of its Encryptor and of its Decryptor.
pub record Mode : Type 0 where
  pub encryptor : Cipher → Chain → Block → Block × Chain
  pub decryptor : Cipher → Chain → Block → Block × Chain

abbrev pub cbc : Mode
cbc = record { encryptor = cbc_encrypt_block; decryptor = cbc_decrypt_block }

abbrev pub ctr : Mode
ctr = record { encryptor = ctr_process_block; decryptor = ctr_process_block }

pub record Padding : Type 0 where
  pub pad_data : WordArray → ℕ → WordArray
  pub unpad_data : WordArray → WordArray

abbrev pub pkcs7 : Padding
pkcs7 = record { pad_data = pad; unpad_data = unpad }

abbrev pub without_padding : Padding
without_padding = record {
  pad_data = λ data_ block_size. no_padding data_;
  unpad_data = no_padding;
}

-- cfg
pub record Cfg : Type 0 where
  pub mode : Mode
  pub padding : Padding
  pub iv : WordArray

-- The members of a cipher: its buffer, and its mode's state.
pub record CipherState : Type 0 where
  pub buffer : Buffer
  pub chain : Chain

-- The creator of the mode that a cipher drives.
abbrev pub mode_creator : XformMode → Mode → Cipher → Chain → Block → Block × Chain
mode_creator enc_xform_mode mode = mode.encryptor
mode_creator dec_xform_mode mode = mode.decryptor

-- At least one block stays in the buffer for unpadding.
abbrev pub min_buffer_size : XformMode → ℕ
min_buffer_size enc_xform_mode = 0
min_buffer_size dec_xform_mode = 1

module _ (xform_mode : XformMode) (cipher : Cipher) (cfg : Cfg) where
  abbrev pub algorithm : Algorithm
  algorithm = record {
    State = Chain;
    block_size = cipher.block_size;
    min_buffer_size = min_buffer_size xform_mode;
    do_process_block = mode_creator xform_mode cfg.mode cipher;
  }

  -- A mode reads the first words of the initial vector, as many as a block has.
  abbrev pub cipher_reset : CipherState
  cipher_reset = record {
    buffer = reset;
    chain = chain_init (slice cfg.iv.words 0 cipher.block_size);
  }

  -- Cipher.process
  unfoldable pub cipher_process : CipherState → WordArray → WordArray × CipherState
  unfolding process append
  cipher_process state data_update =
      let (processed, left, chain) =
        process algorithm false (append state.buffer data_update) state.chain in
      (processed, record { buffer = left; chain = chain })

-- BlockCipher._doFinalize
unfoldable pub do_finalize : XformMode → Cipher → Cfg → CipherState → WordArray
unfolding process
do_finalize enc_xform_mode cipher cfg state =
    let padded = record state.buffer {
      data_ = cfg.padding.pad_data state.buffer.data_ cipher.block_size;
    } in
    (process (algorithm enc_xform_mode cipher cfg) true padded state.chain).0
do_finalize dec_xform_mode cipher cfg state =
    cfg.padding.unpad_data
      (process (algorithm dec_xform_mode cipher cfg) true state.buffer state.chain).0

-- Cipher.finalize
unfoldable pub finalize : XformMode → Cipher → Cfg → CipherState → WordArray → WordArray
unfolding append do_finalize
finalize xform_mode cipher cfg state data_update =
    do_finalize xform_mode cipher cfg (record state { buffer = append state.buffer data_update })

-- if (!salt) { salt = WordArray.random(64/8); }
abbrev pub salt_or : (drawn : WordArray) → Option WordArray → WordArray
salt_or drawn none = drawn
salt_or drawn (some salt) = salt

-- A concrete cipher, such as AES: its sizes in words, and what its key makes of a block.
pub record BlockAlgorithm : Type 0 where
  pub key_size : ℕ
  pub iv_size : ℕ
  pub keyed : WordArray → Cipher

module _ (algorithm : BlockAlgorithm) where
  -- SerializableCipher.encrypt and decrypt, to and from cipher parameters.
  unfoldable pub serializable_encrypt : (message key : WordArray) → Cfg → Params
  unfolding finalize
  serializable_encrypt message key cfg =
      let cipher = algorithm.keyed key in
      record {
        ciphertext =
            finalize enc_xform_mode cipher cfg (cipher_reset enc_xform_mode cipher cfg) message;
        salt = none;
      }

  unfoldable pub decrypt_params : Params → (key : WordArray) → Cfg → WordArray
  unfolding finalize
  decrypt_params params key cfg =
      let cipher = algorithm.keyed key in
      finalize dec_xform_mode cipher cfg (cipher_reset dec_xform_mode cipher cfg) params.ciphertext

  -- A ciphertext that is a string is parsed.
  unfoldable pub serializable_decrypt : Text → (key : WordArray) → Cfg → WordArray
  unfolding unformat decrypt_params
  serializable_decrypt ciphertext key cfg = decrypt_params (unformat ciphertext) key cfg

  -- EvpKDF.create({ keySize }).compute(password, salt) is the parameter.
  module _ (compute : (key_size : ℕ) → Text → WordArray → WordArray) where
    -- OpenSSLKdf.execute: the key and the initial vector from the derived words.
    abbrev pub execute : (password : Text) (salt : WordArray) → WordArray × WordArray
    execute password salt =
        let key = compute (algorithm.key_size + algorithm.iv_size) password salt in
        (
          record key { sig_bytes = algorithm.key_size * 4 },
          record {
            words = λ i. key.words (algorithm.key_size + i);
            sig_bytes = algorithm.iv_size * 4;
          },
        )

    -- The configuration of PasswordBasedCipher: the default mode and padding.
    abbrev pub derived_cfg : WordArray → Cfg
    derived_cfg iv = record { mode = cbc; padding = pkcs7; iv = iv }

    -- The salt is the one that the key derivation draws.
    unfoldable pub password_encrypt : (salt message : WordArray) (password : Text) → Params
    unfolding serializable_encrypt
    password_encrypt salt message password =
        let (key, iv) = execute password salt in
        record (serializable_encrypt message key (derived_cfg iv)) { salt = some salt }

    -- A text without a salt makes the key derivation draw one.
    unfoldable pub password_decrypt : (drawn : WordArray) (ciphertext password : Text) → WordArray
    unfolding unformat decrypt_params
    password_decrypt drawn ciphertext password =
        let params = unformat ciphertext in
        let (key, iv) = execute password (salt_or drawn params.salt) in
        decrypt_params params key (derived_cfg iv)
