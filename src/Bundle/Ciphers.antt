-- ===== src/Bundle/Ciphers.antt =====
-- The ciphers of the bundle satisfy the laws that the wallet's theorems assume, where the block
-- cipher decrypts the blocks that it encrypts.
use mathlib.Core.Path.{fun_ext, subst}
use moa_crypto.Common.{
  ◌≡◌, refl, ◌∙◌, sym, ap, ℕ, ◌+◌, arith, length, [], ◌++◌, take, drop, take-append-drop, true,
  false, ltb, Bool-cases, inl, inr, some, none, Option,
}
use moa_crypto.Text.{Text, starts_with, digit, digit_value}
use moa_crypto.Text.Laws.{starts_with-append}
use moa_crypto.Text.Hex.{IsHex}
use moa_crypto.Text.Digits.{hex_of, hex_of-IsHex}
use moa_crypto.CryptoModule.{CodecLaws, DigestLaws, CipherLaws, salted_prefix, openssl_stringify}
use moa_crypto.CryptoJs.{Words, WordArray, bytes, bytes_from, byte_of}
use moa_crypto.CryptoJs.Fill.{AreWords}
use moa_crypto.CryptoJs.Bytes.{length-bytes_from, bytes_from-IsByte}
use moa_crypto.CryptoJs.Octets.{Octets, octets_eq, of_octets, to_octets, stringify_same}
use moa_crypto.CryptoJs.Join.{concat, truncate}
use moa_crypto.CryptoJs.Concat.{bytes-concat}
use moa_crypto.CryptoJs.Append.{concat-AreWords}
use moa_crypto.CryptoJs.Hex
use moa_crypto.CryptoJs.Base64
use moa_crypto.CryptoJs.Base64.RoundTrip.{base64_parse-stringify}
use moa_crypto.CryptoJs.OpenSsl.{Params, salted, format, unformat}
use moa_crypto.CryptoJs.OpenSsl.FormatLaws.{
  salted-AreWords, IsPlain, unformat-format_plain, unformat-format_salted,
}
use moa_crypto.CryptoJs.BlockCipher.{
  enc_xform_mode, Cfg, serializable_encrypt, serializable_decrypt, decrypt_params, password_encrypt,
  password_decrypt, execute, derived_cfg,
}
use moa_crypto.CryptoJs.BlockCipher.CbcRoundTrip.{cbc_finalize, cbc_finalize-AreWords, cbc_decrypts}
use moa_crypto.CryptoJs.BlockCipher.CtrRoundTrip.{ctr_finalize, ctr_decrypts, sig_bytes-ctr}
use moa_crypto.CryptoJs.Aes.{encrypt_block, decrypt_block}
use moa_crypto.CryptoJs.Aes.Inverse.{aes-BlockLaws}
use moa_crypto.Bundle.{Primitives, bundle, aes, ctr_cfg, two_words}
use moa_crypto.Bundle.Codecs.{
  octets-AreWords, bytes-of_octets, hex_lem, hex_of-append, length-hex_of, bytes-concat_octets,
  bundle-CodecLaws, bundle-DigestLaws,
}

-- What the theorems assume of the primitives: the key derivation gives words of 32 bits.
pub record PrimitiveLaws (primitives : Primitives) : Type 0 where
  pub compute-AreWords :
      (key_size : ℕ) (password : Text) (salt : WordArray)
      → AreWords (primitives.compute key_size password salt).words

hex_of-salted : hex_of (bytes salted) ≡ salted_prefix
unfolding bytes_from byte_of digit
hex_of-salted = refl

prefix-IsHex : IsHex salted_prefix
prefix-IsHex =
    subst IsHex hex_of-salted (hex_of-IsHex (bytes salted) (bytes_from-IsByte salted.words 0 8))

-- A ciphertext whose digits do not begin with the header's does not begin with the header.
IsPlain-of :
    (v : Octets)
    → starts_with (Hex.stringify (of_octets v)) salted_prefix ≡ false
    → IsPlain (of_octets v)
IsPlain-of v h e =
    let front : take 8 v.0 ≡ bytes salted = ap (take 8) (sym (bytes-of_octets v)) ∙ e in
    let whole : v.0 ≡ bytes salted ++ drop 8 v.0 =
      sym (take-append-drop 8 v.0) ∙ ap (λ b. b ++ drop 8 v.0) front in
    let digits : Hex.stringify (of_octets v) ≡ salted_prefix ++ hex_of (drop 8 v.0) =
      hex_lem v
      ∙ ap hex_of whole
      ∙ hex_of-append (bytes salted) (drop 8 v.0)
      ∙ ap (λ t. t ++ hex_of (drop 8 v.0)) hex_of-salted in
    let yes : starts_with (Hex.stringify (of_octets v)) salted_prefix ≡ true =
      ap (λ t. starts_with t salted_prefix) digits
      ∙ starts_with-append salted_prefix (hex_of (drop 8 v.0)) in
    absurd (cc)

format_plain :
    (w : WordArray) → format (record { ciphertext = w; salt = none }) ≡ Base64.stringify w
unfolding format
format_plain w = refl

module _ (primitives : Primitives) (laws : PrimitiveLaws primitives) where
  -- A text that is read as cipher parameters is decrypted by them.
  serializable_decrypt_lem :
      (t : Text) (key : WordArray) (cfg : Cfg) (params : Params)
      → unformat t ≡ params
      → serializable_decrypt aes t key cfg ≡ decrypt_params aes params key cfg
  unfolding serializable_decrypt
  serializable_decrypt_lem t key cfg params e = ap (λ p. decrypt_params aes p key cfg) e

  module _ (m k iv : Octets) where
    abbrev counted : WordArray
    counted =
        ctr_finalize (encrypt_block (of_octets k)) (decrypt_block (of_octets k)) (of_octets iv)
          enc_xform_mode (of_octets m)

    ctr_made :
        (bundle primitives).ctr_encrypt m k iv
        ≡ record { ciphertext = to_octets counted; salt = none }
    unfolding serializable_encrypt
    ctr_made = refl

    ctr_length :
        length (Hex.stringify (of_octets (to_octets counted)))
        ≡ length (Hex.stringify (of_octets m))
    ctr_length =
        ap length (hex_lem (to_octets counted))
        ∙ length-hex_of (bytes counted)
        ∙ omega (
          arith,
          length-bytes_from counted.words 0 counted.sig_bytes,
          sig_bytes-ctr (encrypt_block (of_octets k)) (decrypt_block (of_octets k)) (of_octets iv)
              enc_xform_mode (of_octets m),
        )
        ∙ sym (length-hex_of m.0)
        ∙ ap length (sym (hex_lem m))

    ctr_back :
        starts_with (Hex.stringify (of_octets (to_octets counted))) salted_prefix ≡ false
        → (bundle primitives).ctr_decrypt (Base64.stringify (of_octets (to_octets counted))) k iv
          ≡ m
    unfolding decrypt_params
    ctr_back h =
        let w = of_octets (to_octets counted) in
        let ws = octets-AreWords (to_octets counted) in
        let read =
          ap unformat (sym (format_plain w))
          ∙ unformat-format_plain w ws (IsPlain-of (to_octets counted) h) in
        octets_eq _ m (
          ap bytes (
            serializable_decrypt_lem (Base64.stringify w) (of_octets k) (ctr_cfg primitives iv) _
              read)
          ∙ ctr_decrypts (encrypt_block (of_octets k)) (decrypt_block (of_octets k)) (of_octets iv)
              (of_octets m) (Base64.parse (Base64.stringify w))
              ((base64_parse-stringify w ws).0 ∙ bytes-of_octets (to_octets counted))
          ∙ bytes-of_octets m)

  -- Two words cut to two words are those words.
  two_words_again :
      (s : Octets)
      → ◌≡◌ {A = Option WordArray}
          (some (record { words = truncate (two_words primitives s).words 2; sig_bytes = 8 }))
          (some (two_words primitives s))
  two_words_again s =
      ap (λ (f : Words). some (as_eight f))
        (fun_ext
          (λ i. elim (Bool-cases (ltb i 2)) [ inl low ↦ rw low refl | inr high ↦ rw high refl ]))
    where
      as_eight : Words → WordArray
      as_eight words = record { words = words; sig_bytes = 8 }

  two_words-AreWords : (s : Octets) → AreWords (two_words primitives s).words
  two_words-AreWords s i = elim (Bool-cases (ltb i 2)) [
    | inl low ↦ rw low (octets-AreWords s i)
    | inr high ↦ rw high (omega arith)
  ]

  module _ (s m : Octets) (p : Text) where
    abbrev salt : WordArray
    salt = two_words primitives s

    abbrev key : WordArray
    key = (execute aes primitives.compute p salt).0

    abbrev iv : WordArray
    iv = (execute aes primitives.compute p salt).1

    key-AreWords : AreWords key.words
    key-AreWords = laws.compute-AreWords 12 p salt

    iv-AreWords : AreWords iv.words
    iv-AreWords i = laws.compute-AreWords 12 p salt (8 + i)

    abbrev chained : WordArray
    chained = cbc_finalize (encrypt_block key) (decrypt_block key) iv enc_xform_mode (of_octets m)

    chained-AreWords : AreWords chained.words
    chained-AreWords =
        cbc_finalize-AreWords (encrypt_block key) (decrypt_block key)
          (aes-BlockLaws key key-AreWords) iv (of_octets m) iv-AreWords (octets-AreWords m)

    pbe_made :
        (bundle primitives).pbe_encrypt s m p
        ≡ record { ciphertext = to_octets chained; salt = some (to_octets salt) }
    unfolding password_encrypt serializable_encrypt
    pbe_made = refl

    abbrev joined : WordArray
    joined = concat (concat salted salt) chained

    joined-AreWords : AreWords joined.words
    joined-AreWords =
        concat-AreWords (concat salted salt) chained
          (concat-AreWords salted salt salted-AreWords (two_words-AreWords s)) chained-AreWords

    abbrev header : Octets
    header = to_octets (Hex.parse salted_prefix)

    header_bytes : header.0 ≡ bytes salted
    unfolding bytes_from byte_of digit_value
    header_bytes = (Hex.stringify-parse (of_octets m) salted_prefix prefix-IsHex).1

    abbrev front : Octets
    front = (bundle primitives).concat header (to_octets salt)

    abbrev whole : Octets
    whole = (bundle primitives).concat front (to_octets chained)

    same_bytes : bytes (of_octets whole) ≡ bytes joined
    same_bytes =
        bytes-of_octets whole
        ∙ bytes-concat_octets front (to_octets chained)
        ∙ ap (λ b. b ++ bytes chained)
            (bytes-concat_octets header (to_octets salt)
              ∙ ap (λ b. b ++ bytes salt) header_bytes
              ∙ sym (bytes-concat salted salt salted-AreWords))
        ∙ sym (
            bytes-concat (concat salted salt) chained
              (concat-AreWords salted salt salted-AreWords (two_words-AreWords s)))

    -- The text of the wallet's cipher parameters is the text that OpenSSL.stringify writes.
    text_made :
        openssl_stringify (bundle primitives) ((bundle primitives).pbe_encrypt s m p)
        ≡ format (record { ciphertext = chained; salt = some salt })
    unfolding format
    text_made =
        ap (openssl_stringify (bundle primitives)) pbe_made
        ∙ stringify_same (of_octets whole) joined (octets-AreWords whole) joined-AreWords same_bytes

    abbrev read : Params
    read = unformat (format (record { ciphertext = chained; salt = some salt }))

    password_decrypt_lem :
        (drawn : WordArray) (t : Text) (params : Params)
        → unformat t ≡ params
        → params.salt ≡ some salt
        → password_decrypt aes primitives.compute drawn t p
          ≡ decrypt_params aes params key (derived_cfg aes primitives.compute iv)
    unfolding password_decrypt
    password_decrypt_lem drawn t params e f = rw (e, f) refl

    pbe_back :
        (bundle primitives).pbe_decrypt
          (openssl_stringify (bundle primitives) ((bundle primitives).pbe_encrypt s m p))
          p
        ≡ m
    unfolding decrypt_params
    pbe_back =
        let (salt_read, text_read, words_read) =
          unformat-format_salted chained salt chained-AreWords (two_words-AreWords s) refl in
        ap (λ t. (bundle primitives).pbe_decrypt t p) text_made
        ∙ octets_eq _ m (
            ap bytes (
              password_decrypt_lem (two_words primitives ([], tt)) _ read refl
                (salt_read ∙ two_words_again s))
            ∙ cbc_decrypts (encrypt_block key) (decrypt_block key) (aes-BlockLaws key key-AreWords)
                iv (of_octets m) iv-AreWords (octets-AreWords m) read.ciphertext words_read
                text_read
            ∙ bytes-of_octets m)

  -- The ciphers of the bundle decrypt what they encrypt: in counter mode a text of any size whose
  -- ciphertext does not begin with "Salted__", and any text under a password.
  pub bundle-CipherLaws : CipherLaws (bundle primitives)
  unfolding serializable_encrypt
  bundle-CipherLaws = record {
    ctr-salt = λ m k iv. refl;
    length-ctr = ctr_length;
    ctr_decrypt-ctr_encrypt = ctr_back;
    pbe_decrypt-pbe_encrypt = pbe_back;
  }

  -- The code of the bundle satisfies the laws that the wallet's theorems assume of its parameter:
  -- the encoders read back what they write and the digests have 32 bytes; in counter mode a text
  -- of any size is decrypted whose ciphertext does not begin with "Salted__", and the
  -- password-based cipher decrypts any text. The key derivation is taken to give words of 32
  -- bits.
  pub bundle_laws :
      CodecLaws (bundle primitives)
      × DigestLaws (bundle primitives)
      × CipherLaws (bundle primitives)
  bundle_laws = (bundle-CodecLaws primitives, bundle-DigestLaws primitives, bundle-CipherLaws)
