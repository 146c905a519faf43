-- ===== src/Wallet/Restore.antt =====
-- createRestoreWallet and convertRestoreDataFormat.
use moa_crypto.Common.{
  ℕ, ◌-◌, ◌++◌, ◌∷◌, Option, none, some, List, length, get_elem?, ltb, if◌then◌else◌,
}
use moa_crypto.Text.{Text, split, substr}
use moa_crypto.Browser.{Script, Result, pure, lift, member, ◌>>=◌}
use moa_crypto.CryptoModule.{CryptoModule}
use moa_crypto.Wallet.{type_restore}
use moa_crypto.Wallet.Values.{words, cipher}
use moa_crypto.Wallet.Cipher.{encrypt_pbe_data, decrypt_aes_data}
use moa_crypto.Wallet.Mac.{generate_addr, map_result, bind_result}
use moa_crypto.Wallet.Create.{seal}

-- arr[arr.length - n], undefined where there are fewer, and for an n of 0.
abbrev pub from_end : List Text → ℕ → Option Text
from_end parts n = if ltb (length parts) n then none else get_elem? parts (length parts - n)

-- str.substr(str.length - n, n): a start below 0 counts from the end of the string again, and one
-- that is below 0 still is 0.
abbrev pub substr_from_end : Text → ℕ → Text
substr_from_end s n =
    if ltb (length s) n then substr s (length s - (n - length s)) n else substr s (length s - n) n

module _ (c : CryptoModule) where
  open c use {WordArray, hex_stringify, hex_parse, base64_stringify, base64_parse}

  -- The wallet from the three parts of a restore message.
  unfoldable pub restore_from :
      (drawn : WordArray) (password enc_prk enc_puk enc_salt : Text) → Script (Unit {0})
  restore_from drawn password enc_prk enc_puk enc_salt =
      let prk = hex_parse (hex_stringify (base64_parse enc_prk)) in
      let salt = base64_parse enc_salt in
      let sealed_prk = encrypt_pbe_data c drawn prk password in
      let puk = decrypt_aes_data c enc_puk password salt in
      let address = generate_addr c puk in
      seal c type_restore password salt (cipher sealed_prk) (words puk) address

  -- `none` for the data is null. `drawn` is the salt that the password-based cipher draws.
  unfoldable pub create_restore_wallet :
      (drawn : WordArray) (password : Text) (data_ : Option Text) → Script (Unit {0})
  unfolding restore_from
  create_restore_wallet drawn password none = pure tt
  create_restore_wallet drawn password (some msg) = do
    let restore_data = split b'$' msg
    enc_prk ← lift (member (get_elem? restore_data 0))
    enc_puk ← lift (member (get_elem? restore_data 1))
    enc_salt ← lift (member (get_elem? restore_data 2))
    restore_from drawn password enc_prk enc_puk enc_salt

  -- The second of two fields is E(puk), its HMAC (32 bytes) and the salt (32 bytes).
  unfoldable pub repack : (base64_prk hex_str : Text) → Text
  repack base64_prk hex_str =
      base64_prk
      ++ (b'$'
          ∷ (base64_stringify (hex_parse (substr hex_str 0 (length hex_str - 128)))
              ++ (b'$' ∷ base64_stringify (hex_parse (substr_from_end hex_str 64)))))

  -- base64Prk.concat on undefined is a TypeError.
  unfoldable pub convert_restore_data_format : Text → Result Text
  unfolding repack
  convert_restore_data_format msg =
      let each_msg = split b'$' msg in
      bind_result (member (from_end each_msg 2)) λ base64_prk.
        map_result (λ packed. repack base64_prk (hex_stringify (base64_parse packed)))
          (member (from_end each_msg 1))
