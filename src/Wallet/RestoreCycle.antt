-- ===== src/Wallet/RestoreCycle.antt =====
-- From the restore data of one page to a wallet on another: registration, the reply that carries
-- the fields back, the password check, the restored wallet, and its signature.
use moa_crypto.Common.{◌≡◌, ◌≢◌, ap, ◌∙◌, ◌++◌, ◌∷◌, [], ℕ, arith, All-append}
use moa_crypto.Text.{Text, split}
use moa_crypto.Text.Laws.{Free, split-append, split_of_Free}
use moa_crypto.Browser.{ok}
use moa_crypto.CryptoModule.{CryptoModule, CodecLaws, CipherLaws}
use moa_crypto.Kjur.{Kjur}
use moa_crypto.Wallet.{salt_size}
use moa_crypto.Wallet.Cipher.{encrypt_aes_data}
use moa_crypto.Wallet.Create.{generate_restore_data_format}
use moa_crypto.Wallet.Lifecycle.{generated}
use moa_crypto.Wallet.KeyRecovery.{text-encrypt_aes_data}
use moa_crypto.Wallet.RestoreFormat.{restore_data, packed, split-restore_data}
use moa_crypto.Auth.Requests.{◌$◌, generate_wallet_regist_msg, regist_from, base64_id}
use moa_crypto.Auth.{wallet_regist_req}

module _ (c : CryptoModule) where
  open c use {WordArray, base64_stringify, hmac_sha256, utf8_parse}

  -- The restore message: the HMAC of E(puk) before the restore data.
  abbrev pub restore_message : (password : Text) (enc_prk enc_puk salt : WordArray) → Text
  restore_message password enc_prk enc_puk salt =
      base64_stringify (hmac_sha256 enc_puk (utf8_parse password))
      ++ b'%' ∷ restore_data c enc_prk enc_puk salt

  module _ (k : Kjur) (draw : ℕ → ℕ → WordArray) (seed : ℕ) (password : Text) where
    abbrev pub enc_prk : WordArray
    enc_prk =
        (encrypt_aes_data c (generated k seed).ecprvhex password (draw 0 salt_size)).ciphertext

    abbrev pub enc_puk : WordArray
    enc_puk =
        (encrypt_aes_data c (generated k seed).ecpubhex password (draw 0 salt_size)).ciphertext

module _ (c : CryptoModule) (codec : CodecLaws c) where
  open c use {
    WordArray, hex_stringify, hex_parse, base64_stringify, base64_parse, hmac_sha256, utf8_parse,
  }

  module _ (ciphers : CipherLaws c) (k : Kjur) (draw : ℕ → ℕ → WordArray) (seed : ℕ)
      (password : Text) where
    pub generate_restore_data_format_lem :
        generate_restore_data_format c k draw seed password
        ≡ restore_message c password
            (enc_prk c k draw seed password)
            (enc_puk c k draw seed password)
            (draw 0 salt_size)
    unfolding generate_restore_data_format
    generate_restore_data_format_lem =
        simp (text-encrypt_aes_data c ciphers, codec.base64_parse-base64_stringify)

  dollar-ne-percent : ◌≢◌ {A = ℕ} b'$' b'%'
  dollar-ne-percent = omega arith

  restore_data-Free : (e1 e2 s : WordArray) → Free b'%' (restore_data c e1 e2 s)
  restore_data-Free e1 e2 s = All-append _ (base64_stringify e1) _ (codec.base64_no_percent e1) (
    dollar-ne-percent,
    All-append _ (base64_stringify e2) _ (codec.base64_no_percent e2)
        (dollar-ne-percent, codec.base64_no_percent s),
  )

  regist_from-parts :
      (id psw : Text) (e1 e2 s h : WordArray)
      → regist_from c id psw
          (base64_stringify h)
          (base64_stringify e1)
          (base64_stringify e2)
          (base64_stringify s)
        ≡ (wallet_regist_req
            $ base64_id c id
            $ base64_stringify (hex_parse psw)
            $ base64_stringify e1
            $ base64_stringify (packed c e2 h s))
  unfolding regist_from
  regist_from-parts id psw e1 e2 s h =
      simp (codec.base64_parse-base64_stringify, codec.hex_parse-hex_stringify)

  split-restore_message :
      (password : Text) (e1 e2 s : WordArray)
      → split b'%' (restore_message c password e1 e2 s)
        ≡ base64_stringify (hmac_sha256 e2 (utf8_parse password)) ∷ restore_data c e1 e2 s ∷ []
  split-restore_message password e1 e2 s =
      split-append b'%' _ _ (codec.base64_no_percent _)
      ∙ ap (λ r. base64_stringify (hmac_sha256 e2 (utf8_parse password)) ∷ r)
          (split_of_Free b'%' _ (restore_data-Free e1 e2 s))

  -- The registration of a restore message carries the encrypted private key, and E(puk), its HMAC
  -- and the salt in one field.
  pub generate_wallet_regist_msg_lem :
      (id psw password : Text) (e1 e2 s : WordArray)
      → generate_wallet_regist_msg c id psw (restore_message c password e1 e2 s)
        ≡ ok (
            wallet_regist_req
            $ base64_id c id
            $ base64_stringify (hex_parse psw)
            $ base64_stringify e1
            $ base64_stringify (packed c e2 (hmac_sha256 e2 (utf8_parse password)) s))
  unfolding generate_wallet_regist_msg
  generate_wallet_regist_msg_lem id psw password e1 e2 s =
      rw (split-restore_message password e1 e2 s, split-restore_data c codec e1 e2 s)
        (ap ok (regist_from-parts id psw e1 e2 s (hmac_sha256 e2 (utf8_parse password))))
