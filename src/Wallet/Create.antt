-- ===== src/Wallet/Create.antt =====
-- createNonRestoreWallet and generateRestoreDataFormat. The random word arrays that a call draws
-- are `draw 0`, `draw 1`, … of the sizes asked for, and the key generator's randomness is `seed`.
use moa_crypto.Common.{ℕ, ◌++◌, ◌∷◌}
use moa_crypto.Text.{Text}
use moa_crypto.Browser.{Script, lift, ◌>>=◌}
use moa_crypto.CryptoModule.{CryptoModule, openssl_stringify}
use moa_crypto.Kjur.{Kjur, do_generate}
use moa_crypto.Wallet.{options, salt_size, type_normal}
use moa_crypto.Wallet.Values.{Value, number, text, words, cipher}
use moa_crypto.Wallet.Cipher.{encrypt_prk, encrypt_aes_data}
use moa_crypto.Wallet.Mac.{generate_addr, generate_mac}
use moa_crypto.Wallet.Save.{save_data}

module _ (c : CryptoModule) where
  open c use {WordArray, hex_stringify, base64_stringify, base64_parse, utf8_parse, hmac_sha256}

  abbrev pub combine_salt_with_psw : WordArray → Text → Text
  combine_salt_with_psw salt password = hex_stringify salt ++ hex_stringify (utf8_parse password)

  -- The MAC over a new wallet, and the save of it: the common end of both ways to make a wallet.
  unfoldable pub seal :
      (type password : Text) (salt : WordArray) (target puk : Value WordArray) (address : WordArray)
      → Script (Unit {0})
  unfolding generate_mac save_data
  seal type password salt target puk address = do
    mac ← lift (
        generate_mac c (record {
          version = number options.version_info;
          os = text options.os_name;
          type = type;
          salt_and_psw = combine_salt_with_psw salt password;
          iteration_cnt = number options.iteration_count;
          target = target;
          puk = puk;
          address = words address;
        }))
    save_data c (record {
      type = type;
      salt = salt;
      target = target;
      puk = puk;
      address = address;
      mac = mac;
    })

  module _ (k : Kjur) (draw : ℕ → ℕ → WordArray) (seed : ℕ) (password : Text) where
    unfoldable pub create_non_restore_wallet : Script (Unit {0})
    unfolding do_generate
    create_non_restore_wallet =
        let key_pair = do_generate k options.ecc_curve seed in
        let salt = draw 0 salt_size in
        let enc_prk = encrypt_prk c (draw 1 8) key_pair.ecprvhex password salt in
        let address = generate_addr c (utf8_parse key_pair.ecpubhex) in
        seal type_normal password salt (cipher enc_prk) (text key_pair.ecpubhex) address

    unfoldable pub generate_restore_data_format : Text
    unfolding do_generate
    generate_restore_data_format =
        let key_pair = do_generate k options.ecc_curve seed in
        let salt = draw 0 salt_size in
        let enc_prk = encrypt_aes_data c key_pair.ecprvhex password salt in
        let enc_puk = encrypt_aes_data c key_pair.ecpubhex password salt in
        let hmac_encrypted_puk =
          hmac_sha256 (base64_parse (openssl_stringify c enc_puk)) (utf8_parse password) in
        base64_stringify hmac_encrypted_puk
        ++ (b'%'
            ∷ (openssl_stringify c enc_prk
                ++ (b'$' ∷ (openssl_stringify c enc_puk ++ (b'$' ∷ base64_stringify salt)))))
