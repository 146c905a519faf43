-- ===== src/Wallet/Restored.antt =====
-- A wallet restored from the reply to a registration: the password check, and its use.
use moa_crypto.Common.{
  ◌≡◌, sym, ap, ◌↔◌, take-append, ◌∙◌, none, some, ◌++◌, ◌∷◌, ℕ, length, true, Bool,
}
use mathlib.Core.Path.{subst}
use moa_crypto.Text.{Text, codes, index_of, is_zero}
use moa_crypto.Text.Laws.{Free, split-append, split_of_Free, is_zero-index_of_iff}
use moa_crypto.Text.Hex.{IsHex}
use moa_crypto.Browser.{Page, Result, ok}
use moa_crypto.CryptoModule.{CryptoModule, CodecLaws, CipherLaws, DigestLaws, CipherParams}
use moa_crypto.Kjur.{Kjur, KeyPairLaws, do_sign}
use moa_crypto.Wallet.{options, salt_size, get_wallet_properties, type_restore}
use moa_crypto.Wallet.Values.{words, cipher}
use moa_crypto.Wallet.Cipher.{encrypt_prk}
use moa_crypto.Wallet.Mac.{generate_addr}
use moa_crypto.Wallet.Sign.{get_public_key, generate_transaction_sign, verify_transaction_sign}
use moa_crypto.Wallet.Restore.{create_restore_wallet}
use moa_crypto.Wallet.Create.{seal}
use moa_crypto.Wallet.KeyRecovery.{
  IsUnsalted, kept_text, hex-decrypt_prk, decrypt_aes_data-encrypt_aes_data,
}
use moa_crypto.Wallet.Integrity.{IsKept, seal-IsKept}
use moa_crypto.Wallet.Signing.{get_public_key_lem, generate_transaction_sign_lem}
use moa_crypto.Wallet.Lifecycle.{generated}
use moa_crypto.Wallet.Password.{check_psw, verify_psw}
use moa_crypto.Wallet.RestoreFormat.{
  restore_data, packed, split-restore_data, split_reply, cut_middle, hex-packed,
}
use moa_crypto.Wallet.RestoreCycle.{enc_prk, enc_puk}

module _ (c : CryptoModule) (codec : CodecLaws c) (digests : DigestLaws c) where
  open c use {
    WordArray, hex_stringify, hex_parse, base64_stringify, base64_parse, hmac_sha256, utf8_parse,
  }

  check_psw-packed :
      (psw psw' : Text) (e2 s : WordArray)
      → length (hex_stringify e2) ≡ 130
      → length (hex_stringify s) ≡ 64
      → check_psw c psw' (hex_stringify (packed c e2 (hmac_sha256 e2 (utf8_parse psw)) s))
        ≡ is_zero (
            index_of
              (hex_stringify (hmac_sha256 e2 (utf8_parse psw)))
              (hex_stringify (hmac_sha256 e2 (utf8_parse psw'))))
  unfolding check_psw
  check_psw-packed psw psw' e2 s e_size s_size =
      let h = hmac_sha256 e2 (utf8_parse psw) in
      rw (
        hex-packed c codec e2 h s,
        cut_middle (hex_stringify e2) (hex_stringify h) (hex_stringify s)
            (digests.length-hmac_sha256 e2 (utf8_parse psw)) s_size 130 (sym e_size),
        take-append (hex_stringify e2) (hex_stringify h ++ hex_stringify s) {n = 130} (sym e_size),
        codec.hex_parse-hex_stringify,
      )

  -- A reply of four fields, the last of which holds E(puk) of 65 bytes, its HMAC under one
  -- password and a salt of 32 bytes: verifyPsw accepts any password exactly when it gives the
  -- same HMAC. The header and the state hold no "$", and the laws of the encoders and digests are
  -- assumed.
  pub verify_psw_iff :
      (psw psw' header state : Text) (e1 e2 s : WordArray)
      → Free b'$' header
      → Free b'$' state
      → length (hex_stringify e2) ≡ 130
      → length (hex_stringify s) ≡ 64
      → (verify_psw c psw' (
            (header ++ b'$' ∷ state)
            ++ b'$'
              ∷ (base64_stringify e1
                  ++ b'$' ∷ base64_stringify (packed c e2 (hmac_sha256 e2 (utf8_parse psw)) s)))
          ≡ ok true)
        ↔ (hex_stringify (hmac_sha256 e2 (utf8_parse psw))
            ≡ hex_stringify (hmac_sha256 e2 (utf8_parse psw')))
  unfolding verify_psw
  verify_psw_iff psw psw' header state e1 e2 s no_header no_state e_size s_size =
      let h = hmac_sha256 e2 (utf8_parse psw) in
      let h' = hmac_sha256 e2 (utf8_parse psw') in
      let same = is_zero-index_of_iff (hex_stringify h) (hex_stringify h') (
        digests.length-hmac_sha256 e2 (utf8_parse psw)
        ∙ sym (digests.length-hmac_sha256 e2 (utf8_parse psw'))) in
      rw
        (
          split_reply c codec e2 h s (digests.length-hmac_sha256 e2 (utf8_parse psw)) s_size
              (header ++ b'$' ∷ state) e1,
          split-append b'$' header state no_header,
          split_of_Free b'$' state no_state,
          codec.base64_parse-base64_stringify,
          check_psw-packed psw psw' e2 s e_size s_size,
        )
        (λ e. same.0 (ok_injective e), λ e. ap ok (same.1 e))
    where
      ok_injective : {a b : Bool} → ◌≡◌ {A = Result Bool} (ok a) (ok b) → a ≡ b
      ok_injective e = cc

module _ (c : CryptoModule) (k : Kjur) (draw : ℕ → ℕ → c.WordArray) (seed : ℕ)
    (password : Text) where
  -- The restore data that a page makes.
  abbrev pub data_to_restore : Text
  data_to_restore =
      restore_data c (enc_prk c k draw seed password) (enc_puk c k draw seed password)
        (draw 0 salt_size)

  -- The private key under the password-based cipher of the restoring page.
  abbrev pub sealed_prk : c.WordArray → CipherParams c.WordArray
  sealed_prk drawn = encrypt_prk c drawn (generated k seed).ecprvhex password (draw 0 salt_size)

  -- The page after the restoration.
  abbrev pub restored : c.WordArray → Page → Page
  restored drawn p = (create_restore_wallet c drawn password (some data_to_restore) p).1

module _ (c : CryptoModule) (codec : CodecLaws c) (ciphers : CipherLaws c) (k : Kjur)
    (draw : ℕ → ℕ → c.WordArray) (seed : ℕ) (password : Text) (drawn : c.WordArray) where
  open c use {WordArray, hex_stringify, hex_parse, utf8_parse}

  module _ (p : Page) (free : p.storage (codes "R.Version.Info") ≡ none)
      (unsalted_puk : IsUnsalted c (generated k seed).ecpubhex password (draw 0 salt_size))
      (puk_IsHex : IsHex (generated k seed).ecpubhex) where
    create_restore_wallet_lem :
        create_restore_wallet c drawn password (some (data_to_restore c k draw seed password)) p
        ≡ seal c type_restore password
            (draw 0 salt_size)
            (cipher (sealed_prk c k draw seed password drawn))
            (words (hex_parse (generated k seed).ecpubhex))
            (generate_addr c (hex_parse (generated k seed).ecpubhex))
            p
    unfolding create_restore_wallet encrypt_prk
    create_restore_wallet_lem =
        rw
          (split-restore_data c codec (enc_prk c k draw seed password)
            (enc_puk c k draw seed password) (draw 0 salt_size))
          (simp (
            codec.base64_parse-base64_stringify,
            codec.hex_parse-hex_stringify,
            decrypt_aes_data-encrypt_aes_data c ciphers (generated k seed).ecpubhex password
                (draw 0 salt_size) unsalted_puk,
          ))

    -- Where no restore wallet is kept, the restoration succeeds and leaves a whole wallet, whose
    -- public key is the generated one. The laws of the encoders and ciphers are assumed, the
    -- public key is hexadecimal, and its AES ciphertext does not begin with "Salted__".
    pub create_restore_wallet-IsKept :
        (create_restore_wallet c drawn password (some (data_to_restore c k draw seed password)) p
          ≡ (ok tt, (restored c k draw seed password drawn p)))
        × IsKept c
            (get_wallet_properties type_restore)
            type_restore
            password
            (draw 0 salt_size)
            (kept_text c (sealed_prk c k draw seed password drawn))
            (generated k seed).ecpubhex
            (hex_stringify (generate_addr c (hex_parse (generated k seed).ecpubhex)))
            (restored c k draw seed password drawn p).storage
    unfolding get_wallet_properties index_of
    create_restore_wallet-IsKept =
        subst
          (λ m.
            (m ≡ (ok tt, m.1))
            × IsKept c (get_wallet_properties type_restore) type_restore password (draw 0 salt_size)
                (kept_text c (sealed_prk c k draw seed password drawn)) (generated k seed).ecpubhex
                (hex_stringify (generate_addr c (hex_parse (generated k seed).ecpubhex)))
                m.1.storage)
          (sym create_restore_wallet_lem)
          (seal-IsKept c type_restore password (draw 0 salt_size)
            (sealed_prk c k draw seed password drawn)
            (words (hex_parse (generated k seed).ecpubhex)) (generated k seed).ecpubhex
            (generate_addr c (hex_parse (generated k seed).ecpubhex)) p
            (ap ok (codec.hex_stringify-hex_parse (generated k seed).ecpubhex puk_IsHex))
            (codec.hex_stringify-hex_parse (generated k seed).ecpubhex puk_IsHex) free)

  module _ (p : Page) (free : p.storage (codes "R.Version.Info") ≡ none)
      (unsalted_prk : IsUnsalted c (generated k seed).ecprvhex password (draw 0 salt_size))
      (unsalted_puk : IsUnsalted c (generated k seed).ecpubhex password (draw 0 salt_size))
      (keys : KeyPairLaws k options.ecc_curve options.signature_alg seed) where
    -- Where no restore wallet is kept, a page that is given the restore data makes the wallet,
    -- and then signs with the private key that was generated on the first page, hands out its
    -- public key, and the signature verifies under it. The laws of the encoders and ciphers are
    -- assumed; the generated key pair is taken to be hexadecimal and its signatures to verify;
    -- and neither AES ciphertext begins with "Salted__".
    pub restore_sign_verify :
        (transaction : Text) (nonce : ℕ)
        → (create_restore_wallet c drawn password (some (data_to_restore c k draw seed password)) p
            ≡ (ok tt, (restored c k draw seed password drawn p)))
          × (generate_transaction_sign c k transaction password nonce
                (restored c k draw seed password drawn p)
              ≡ (
                ok (
                    some (
                      do_sign k options.ecc_curve options.signature_alg transaction
                        (generated k seed).ecprvhex
                        nonce)),
                (restored c k draw seed password drawn p),
              ))
          × (get_public_key (restored c k draw seed password drawn p)
              ≡ (ok (some (generated k seed).ecpubhex), (restored c k draw seed password drawn p)))
          × (verify_transaction_sign k transaction
                (do_sign k options.ecc_curve options.signature_alg transaction
                  (generated k seed).ecprvhex
                  nonce)
                (generated k seed).ecpubhex
              ≡ true)
    unfolding verify_transaction_sign
    restore_sign_verify transaction nonce =
        let (made, kept) = create_restore_wallet-IsKept p free unsalted_puk keys.ecpubhex-IsHex in
        let signed =
          generate_transaction_sign_lem c codec (sealed_prk c k draw seed password drawn)
            (restored c k draw seed password drawn p) kept k transaction nonce in
        (
          made,
          signed
              ∙ ap
                  (λ d. (
                    ok (
                        some
                          (do_sign k options.ecc_curve options.signature_alg transaction d nonce)),
                    (restored c k draw seed password drawn p),
                  ))
                  (hex-decrypt_prk c codec ciphers drawn _ password _ keys.ecprvhex-IsHex
                    unsalted_prk),
          get_public_key_lem c codec (restored c k draw seed password drawn p) kept,
          keys.verify-sign transaction nonce,
        )
