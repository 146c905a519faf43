-- ===== src/Wallet/Lifecycle.antt =====
-- A wallet that is created and then used on the same page.
use moa_crypto.Common.{◌≡◌, refl, ap, ◌∙◌, true, some, none, ℕ}
use moa_crypto.Text.{Text, codes, index_of}
use moa_crypto.Browser.{Page, ok}
use moa_crypto.CryptoModule.{CryptoModule, CodecLaws, CipherLaws, CipherParams}
use moa_crypto.Kjur.{Kjur, KeyPairLaws, KeyPair, do_generate, do_sign}
use moa_crypto.Wallet.{options, salt_size, get_wallet_properties, type_normal}
use moa_crypto.Wallet.Values.{text}
use moa_crypto.Wallet.Cipher.{encrypt_prk}
use moa_crypto.Wallet.Mac.{generate_addr}
use moa_crypto.Wallet.Create.{create_non_restore_wallet}
use moa_crypto.Wallet.Sign.{
  get_public_key, get_wallet_addr, generate_transaction_sign, verify_transaction_sign,
}
use moa_crypto.Wallet.KeyRecovery.{IsUnsalted, kept_text, hex-decrypt_prk}
use moa_crypto.Wallet.Integrity.{IsKept, seal-IsKept}
use moa_crypto.Wallet.Signing.{
  get_public_key_lem, get_wallet_addr_lem, generate_transaction_sign_lem,
}

-- A key pair of the program's curve.
abbrev pub generated : Kjur → ℕ → KeyPair
generated k seed = do_generate k options.ecc_curve seed

module _ (c : CryptoModule) (k : Kjur) (draw : ℕ → ℕ → c.WordArray) (seed : ℕ) (password : Text)
    (p : Page) where
  open c use {WordArray, hex_stringify, hex_parse, utf8_parse}

  -- The private key, encrypted twice.
  abbrev pub enc_prk : CipherParams WordArray
  enc_prk = encrypt_prk c (draw 1 8) (generated k seed).ecprvhex password (draw 0 salt_size)

  abbrev pub created : Page
  created = (create_non_restore_wallet c k draw seed password p).1

  module _ (free : p.storage (codes "Version.Info") ≡ none) where
    -- Where no normal wallet is kept, creation succeeds and leaves a whole wallet: each entry,
    -- and the MAC over them.
    pub create_non_restore_wallet-IsKept :
        (create_non_restore_wallet c k draw seed password p ≡ (ok tt, created))
        × IsKept c
            (get_wallet_properties type_normal)
            type_normal
            password
            (draw 0 salt_size)
            (kept_text c enc_prk)
            (generated k seed).ecpubhex
            (c.hex_stringify (generate_addr c (utf8_parse (generated k seed).ecpubhex)))
            created.storage
    unfolding create_non_restore_wallet get_wallet_properties index_of
    create_non_restore_wallet-IsKept =
        seal-IsKept c type_normal password (draw 0 salt_size)
          (encrypt_prk c (draw 1 8) (generated k seed).ecprvhex password (draw 0 salt_size))
          (text (generated k seed).ecpubhex) (generated k seed).ecpubhex
          (generate_addr c (utf8_parse (generated k seed).ecpubhex)) p refl refl free

    module _ (codec : CodecLaws c) (ciphers : CipherLaws c)
        (keys : KeyPairLaws k options.ecc_curve options.signature_alg seed)
        (unsalted : IsUnsalted c (generated k seed).ecprvhex password (draw 0 salt_size))
        (transaction : Text) (nonce : ℕ) where
      abbrev signature : Text
      signature =
          do_sign k options.ecc_curve options.signature_alg transaction (generated k seed).ecprvhex
            nonce

      -- Where no normal wallet is kept, creating one succeeds; the page then signs with the
      -- generated private key, leaving the page as it is, hands out the generated public key and
      -- its address, and the signature verifies under that key. The laws of the encoders and
      -- ciphers are assumed; the generated key pair is taken to be hexadecimal and its signatures
      -- to verify; and the AES ciphertext of the private key does not begin with "Salted__".
      pub create_sign_verify :
          (create_non_restore_wallet c k draw seed password p ≡ (ok tt, created))
          × (generate_transaction_sign c k transaction password nonce created
              ≡ (ok (some signature), created))
          × (get_public_key created ≡ (ok (some (generated k seed).ecpubhex), created))
          × (get_wallet_addr created ≡ (
            ok (some (hex_stringify (generate_addr c (utf8_parse (generated k seed).ecpubhex)))),
            created,
          ))
          × (verify_transaction_sign k transaction signature (generated k seed).ecpubhex ≡ true)
      unfolding verify_transaction_sign
      create_sign_verify =
          let (made, kept) = create_non_restore_wallet-IsKept in
          let signed =
            generate_transaction_sign_lem c codec enc_prk created kept k transaction nonce in
          (
            made,
            signed
                ∙ ap
                    (λ d. (
                      ok (
                          some (
                            do_sign k options.ecc_curve options.signature_alg transaction d nonce)),
                      created,
                    ))
                    (hex-decrypt_prk c codec ciphers (draw 1 8) _ password _ keys.ecprvhex-IsHex
                      unsalted),
            get_public_key_lem c codec created kept,
            get_wallet_addr_lem c codec created kept,
            keys.verify-sign transaction nonce,
          )
