-- ===== src/Wallet/Registration.antt =====
-- The restore data through the server: the registration of a page's restore message, and the reply
-- of a restoration that carries its last two fields back.
use moa_crypto.Common.{◌≡◌, ℕ, length, ◌*◌}
use moa_crypto.Text.{Text}
use moa_crypto.Browser.{ok}
use moa_crypto.CryptoModule.{CryptoModule, CodecLaws, CipherLaws, DigestLaws}
use moa_crypto.Kjur.{Kjur}
use moa_crypto.Wallet.{salt_size}
use moa_crypto.Wallet.Create.{generate_restore_data_format}
use moa_crypto.Wallet.Restore.{convert_restore_data_format}
use moa_crypto.Wallet.RestoreFormat.{packed, convert_restore_data_format_lem}
use moa_crypto.Wallet.RestoreCycle.{
  enc_prk, enc_puk, generate_restore_data_format_lem, generate_wallet_regist_msg_lem,
}
use moa_crypto.Wallet.Restored.{data_to_restore}
use moa_crypto.Auth.{wallet_regist_req}
use moa_crypto.Auth.Requests.{◌$◌, generate_wallet_regist_msg, base64_id}

module _ (c : CryptoModule) (k : Kjur) (draw : ℕ → ℕ → c.WordArray) (seed : ℕ)
    (password : Text) where
  -- The last two fields of the registration.
  abbrev pub sent_prk : Text
  sent_prk = c.base64_stringify (enc_prk c k draw seed password)

  abbrev pub sent_puk : Text
  sent_puk = c.base64_stringify (
      packed c (enc_puk c k draw seed password)
        (c.hmac_sha256 (enc_puk c k draw seed password) (c.utf8_parse password)) (draw 0 salt_size))

-- The registration of a page's restore message has five fields; and any reply that ends in its
-- last two is turned into the restore data of that page, where the salt has the size that is
-- asked for. The laws of the encoders, digests and ciphers are assumed.
pub registration_restores :
    (c : CryptoModule) (codec : CodecLaws c) (digests : DigestLaws c) (ciphers : CipherLaws c)
    (k : Kjur) (draw : ℕ → ℕ → c.WordArray) (seed : ℕ) (password id psw front : Text)
    → length (c.hex_stringify (draw 0 salt_size)) ≡ 2 * salt_size
    → (generate_wallet_regist_msg c id psw (generate_restore_data_format c k draw seed password)
        ≡ ok (
            wallet_regist_req
            $ base64_id c id
            $ c.base64_stringify (c.hex_parse psw)
            $ sent_prk c k draw seed password
            $ sent_puk c k draw seed password))
      × (convert_restore_data_format c
            (front $ sent_prk c k draw seed password $ sent_puk c k draw seed password)
          ≡ ok (data_to_restore c k draw seed password))
registration_restores c codec digests ciphers k draw seed password id psw front size = (
  rw (generate_restore_data_format_lem c codec ciphers k draw seed password)
      (generate_wallet_regist_msg_lem c codec id psw password _ _ _),
  convert_restore_data_format_lem c codec (enc_puk c k draw seed password) _ (draw 0 salt_size)
      (digests.length-hmac_sha256 _ _) size front (enc_prk c k draw seed password),
)
