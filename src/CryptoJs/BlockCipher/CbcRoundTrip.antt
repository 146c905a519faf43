-- ===== src/CryptoJs/BlockCipher/CbcRoundTrip.antt =====
-- A cipher in CBC mode with the padding of PKCS 7: what the encryptor makes of a message, the
-- decryptor takes back.
use moa_crypto.Common.{
  ◌≡◌, refl, ◌∙◌, sym, ap, ℕ, suc, ◌+◌, ◌-◌, ◌*◌, ◌/◌, ◌%◌, ◌^◌, ◌<◌, arith, length, All, [], ◌∷◌,
  min, true, ltb, Bool-cases, inl, inr, none,
}
use mathlib.Core.Path.{subst}
use moa_crypto.Common.Bits.{bit_xor-lt}
use moa_crypto.CryptoJs.{Words, WordArray, bytes}
use moa_crypto.CryptoJs.Fill.{AreWords}
use moa_crypto.CryptoJs.Bytes.{bytes_from_same, length-bytes_from}
use moa_crypto.CryptoJs.Join.{truncate}
use moa_crypto.CryptoJs.Modes.{
  Block, Cipher, Chain, chain_init, mixing, xor_words, xor_block, cbc_encrypt_block,
  cbc_decrypt_block,
}
use moa_crypto.CryptoJs.ModeLaws.{xor_words_twice}
use moa_crypto.CryptoJs.Buffer.{slice, process_loop, process, append}
use moa_crypto.CryptoJs.Append.{
  appended, bytes-appended, sig_bytes-appended, appended_at, appended-AreWords, pad-AreWords,
  sig_bytes-of_bytes, words-of_bytes,
}
use moa_crypto.CryptoJs.Pkcs7.{pad, unpad, padding_size}
use moa_crypto.CryptoJs.Padding.{unpad-pad, sig_bytes-pad, unpad_any}
use moa_crypto.CryptoJs.BlockCipher.{
  XformMode, enc_xform_mode, dec_xform_mode, Cfg, cbc, pkcs7, algorithm, cipher_reset, finalize,
}
use moa_crypto.CryptoJs.BlockCipher.Loop.{IsBlock, slice-IsBlock}
use moa_crypto.CryptoJs.BlockCipher.Chained.{Undoes, loop_keeps, loop_undone}

-- A cipher on blocks of 128 bits.
abbrev pub four_words : (encrypt_block decrypt_block : Block → Block) → Cipher
four_words encrypt_block decrypt_block = record {
  block_size = 4;
  encrypt_block = encrypt_block;
  decrypt_block = decrypt_block;
}

-- What it promises under a key: it decrypts the blocks that it encrypts.
pub record BlockLaws (encrypt_block decrypt_block : Block → Block) : Type 0 where
  pub encrypt-IsBlock : (block : Block) → IsBlock 4 block → IsBlock 4 (encrypt_block block)
  pub decrypt-encrypt :
      (block : Block) → IsBlock 4 block → decrypt_block (encrypt_block block) ≡ block

-- What CBC mode with the padding of PKCS 7 makes of an array.
abbrev pub cbc_finalize :
    (encrypt_block decrypt_block : Block → Block) (iv : WordArray)
    → XformMode
    → WordArray
    → WordArray
cbc_finalize encrypt_block decrypt_block iv xform_mode v =
    let cipher = four_words encrypt_block decrypt_block in
    let cfg : Cfg = record { mode = cbc; padding = pkcs7; iv = iv } in
    finalize xform_mode cipher cfg (cipher_reset xform_mode cipher cfg) v

abbrev AreBelow : Block → Type 0
AreBelow = All (λ word. word < 2 ^ 32)

pub xor_words-IsBlock :
    (size : ℕ) (words block : Block)
    → IsBlock size words
    → AreBelow block
    → IsBlock size (xor_words words block)
xor_words-IsBlock size [] block h k = h
xor_words-IsBlock size (word ∷ words) [] h k = h
xor_words-IsBlock size (word ∷ words) (other ∷ block) (e, (h, hs)) (k, ks) =
    let (f, rest) = xor_words-IsBlock (length words) words block (refl, hs) ks in
    (ap suc f ∙ e, (bit_xor-lt 32 word other h k, rest))

module _ (encrypt_block decrypt_block : Block → Block)
    (laws : BlockLaws encrypt_block decrypt_block) where
  abbrev cipher : Cipher
  cipher = four_words encrypt_block decrypt_block

  pub cbc-Undoes : Undoes 4 (cbc_encrypt_block cipher) (cbc_decrypt_block cipher)
  unfolding cbc_encrypt_block cbc_decrypt_block
  cbc-Undoes = record {
    IsGood = λ chain. AreBelow (mixing chain.iv chain.prev_block);
    keeps_block = λ chain block good h.
        laws.encrypt-IsBlock (xor_block chain block)
          (xor_words-IsBlock 4 block (mixing chain.iv chain.prev_block) h good);
    keeps_chain = λ chain block good h.
        (laws.encrypt-IsBlock (xor_block chain block)
          (xor_words-IsBlock 4 block (mixing chain.iv chain.prev_block) h good)).1;
    undone = λ chain block good h.
        ap
          (λ b. (
            xor_block chain b,
            record { iv = none; prev_block = encrypt_block (xor_block chain block) },
          ))
          (laws.decrypt-encrypt (xor_block chain block)
            (xor_words-IsBlock 4 block (mixing chain.iv chain.prev_block) h good))
        ∙ ap (λ b. (b, record { iv = none; prev_block = encrypt_block (xor_block chain block) }))
            (xor_words_twice block (mixing chain.iv chain.prev_block));
  }

  module _ (iv m : WordArray) (ivs : AreWords iv.words) (ms : AreWords m.words) where
    abbrev cfg : Cfg
    cfg = record { mode = cbc; padding = pkcs7; iv = iv }

    abbrev start : Chain
    start = chain_init (slice iv.words 0 4)

    start_good : cbc-Undoes.IsGood start
    unfolding cbc-Undoes
    start_good = (slice-IsBlock iv.words ivs 0 4).1

    -- The padded message, and the blocks it has.
    abbrev padded : WordArray
    padded = pad (appended m) 4

    abbrev blocks : ℕ
    blocks = (padded.sig_bytes + 16 - 1) / 16

    abbrev encrypted : Words
    encrypted = (process_loop (algorithm enc_xform_mode cipher cfg) start padded.words 0 blocks).0

    abbrev cbc_ciphertext : WordArray
    cbc_ciphertext = cbc_finalize encrypt_block decrypt_block iv enc_xform_mode m

    cbc_ciphertext_lem : cbc_ciphertext ≡ record {
      words = truncate encrypted (blocks * 4);
      sig_bytes = min (blocks * 4 * 4) padded.sig_bytes;
    }
    unfolding finalize append process
    cbc_ciphertext_lem = refl

    padded-AreWords : AreWords padded.words
    padded-AreWords = pad-AreWords (appended m) (appended-AreWords m ms)

    whole_blocks : padded.sig_bytes % 16 ≡ 0
    whole_blocks = (unpad-pad (appended m) (appended-AreWords m ms)).2

    encrypted-AreWords : AreWords encrypted
    encrypted-AreWords =
        (loop_keeps 4 0 1 (cbc_encrypt_block cipher) (cbc_decrypt_block cipher) cbc-Undoes blocks
          start padded.words 0 start_good padded-AreWords).0

    -- Any array that has the words of the ciphertext.
    module _ (v : WordArray) (size : v.sig_bytes ≡ padded.sig_bytes)
        (same : (i : ℕ) → i < blocks * 4 → v.words i ≡ encrypted i) where
      abbrev decrypted : ℕ → Words
      decrypted count =
          (process_loop (algorithm dec_xform_mode cipher cfg) start (appended v).words 0 count).0

      decrypted_lem :
          cbc_finalize encrypt_block decrypt_block iv dec_xform_mode v
          ≡ unpad (record {
            words =
                truncate
                  (decrypted (((appended v).sig_bytes + 16 - 1) / 16))
                  (((appended v).sig_bytes + 16 - 1) / 16 * 4);
            sig_bytes = min (((appended v).sig_bytes + 16 - 1) / 16 * 4 * 4) (appended v).sig_bytes;
          })
      unfolding finalize append process
      decrypted_lem = refl

      abbrev plain : WordArray
      plain = record {
        words = truncate (decrypted blocks) (blocks * 4);
        sig_bytes = padded.sig_bytes;
      }

      plain_lem : cbc_finalize encrypt_block decrypt_block iv dec_xform_mode v ≡ unpad plain
      plain_lem =
          let all : (appended v).sig_bytes ≡ padded.sig_bytes = sig_bytes-appended v ∙ size in
          let short : min (blocks * 4 * 4) padded.sig_bytes ≡ padded.sig_bytes =
            omega (arith, whole_blocks) in
          decrypted_lem ∙ ap unpad (rw (all, short) refl)

      decrypted_at : (i : ℕ) → i < blocks * 4 → decrypted blocks i ≡ padded.words i
      decrypted_at i h =
          (loop_undone 4 0 1 (cbc_encrypt_block cipher) (cbc_decrypt_block cipher) cbc-Undoes blocks
              start padded.words (appended v).words 0 start_good padded-AreWords
              (λ i p q.
                appended_at v i (omega (arith, size, whole_blocks)) ∙ same i (omega arith))).1
            i (omega arith) (omega arith)

      bytes-plain : bytes plain ≡ bytes padded
      bytes-plain = bytes_from_same plain.words padded.words 0 padded.sig_bytes (λ i p q.
          let inside : i / 4 < blocks * 4 = omega (arith, whole_blocks) in
          let test : ltb (i / 4) (blocks * 4) ≡ true = ground arith in
          rw (test, decrypted_at (i / 4) inside) refl)

      decrypts_words :
          bytes (cbc_finalize encrypt_block decrypt_block iv dec_xform_mode v) ≡ bytes m
      decrypts_words =
          let n = padding_size (appended m).sig_bytes 4 in
          let size_of = length-bytes_from (appended m).words 0 (appended m).sig_bytes in
          let (padded_bytes, positive, _, _) = unpad-pad (appended m) (appended-AreWords m ms) in
          ap bytes plain_lem
          ∙ unpad_any plain (bytes (appended m)) n (bytes-plain ∙ padded_bytes)
              (sig_bytes-pad (appended m) (appended-AreWords m ms) ∙ omega (arith, size_of))
              positive (omega (arith, whole_blocks))
          ∙ bytes-appended m

    truncate-AreWords : AreWords (truncate encrypted (blocks * 4))
    truncate-AreWords i = elim (Bool-cases (ltb i (blocks * 4))) [
      | inl low ↦ rw low (encrypted-AreWords i)
      | inr high ↦ rw high (omega arith)
    ]

    pub cbc_finalize-AreWords :
        AreWords (cbc_finalize encrypt_block decrypt_block iv enc_xform_mode m).words
    cbc_finalize-AreWords =
        subst (λ (w : WordArray). AreWords w.words) (sym cbc_ciphertext_lem) truncate-AreWords

    cbc_size : cbc_ciphertext.sig_bytes ≡ padded.sig_bytes
    cbc_size = ap (λ (w : WordArray). w.sig_bytes) cbc_ciphertext_lem ∙ omega (arith, whole_blocks)

    cbc_word : (i : ℕ) → i < blocks * 4 → cbc_ciphertext.words i ≡ encrypted i
    cbc_word i h =
        let low : ltb i (blocks * 4) ≡ true = ground arith in
        ap (λ (w : WordArray). w.words i) cbc_ciphertext_lem ∙ rw low refl

    -- In CBC mode with the padding of PKCS 7, the decryptor gives a message back from any array
    -- of 32-bit words that has the bytes of its ciphertext, where the block cipher decrypts the
    -- blocks of four words that it encrypts, and the message and the initial vector are words of
    -- 32 bits.
    pub cbc_decrypts :
        (v : WordArray)
        → AreWords v.words
        → bytes v ≡ bytes (cbc_finalize encrypt_block decrypt_block iv enc_xform_mode m)
        → bytes (cbc_finalize encrypt_block decrypt_block iv dec_xform_mode v) ≡ bytes m
    cbc_decrypts v vs e =
        decrypts_words v (sig_bytes-of_bytes v cbc_ciphertext e ∙ cbc_size) (λ i h.
          words-of_bytes v cbc_ciphertext vs cbc_finalize-AreWords e i
            (omega (arith, cbc_size, whole_blocks))
          ∙ cbc_word i h)
