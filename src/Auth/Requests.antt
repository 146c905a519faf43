-- ===== src/Auth/Requests.antt =====
-- The requests of moaClientCoreAuthLib: the header and the fields, joined by "$".
use moa_crypto.Common.{ℕ, ◌+◌, ◌++◌, ◌∷◌, Bool, true, false, Option, none, some, length, get_elem?}
use moa_crypto.Text.{Text, codes, index_of, split, substring}
use moa_crypto.Browser.{Result, member}
use moa_crypto.CryptoModule.{CryptoModule}
use moa_crypto.Kjur.{Kjur, do_generate, do_sign}
use moa_crypto.Wallet.Mac.{bind_result, map_result}
use moa_crypto.Auth.{
  core_id_exist, core_id_psw_reg_req, manager_id_psw_reg_req, core_log_in_start_req,
  core_log_in_req, manager_log_in_req, core_change_psw_req, core_un_regist_req, wallet_regist_req,
  wallet_restore_req,
}

abbrev pub manager_admin : Text
manager_admin = codes "0x61"

abbrev pub manager_top : Text
manager_top = codes "0x62"

abbrev pub manager_general : Text
manager_general = codes "0x63"

-- The initial vector, in hexadecimal.
abbrev pub iv : Text
iv = codes "00FF0000FF00FF000000FFFF000000FF"

-- s.concat('$').concat(t)
infixr 64 ◌$◌
abbrev pub ◌$◌ : Text → Text → Text
s $ t = s ++ b'$' ∷ t

-- s.substring(s.indexOf('$') + 1, s.length); -1 + 1 is 0.
abbrev pub after_dollar : Text → Option ℕ → Text
after_dollar s none = substring s 0 (length s)
after_dollar s (some n) = substring s (n + 1) (length s)

module _ (c : CryptoModule) where
  open c use {
    WordArray, hex_stringify, hex_parse, base64_stringify, base64_parse, utf8_parse, concat, sha256,
    hmac_sha256, cbc_encrypt,
  }

  -- CryptoJS.enc.Utf8.parse(id).toString(CryptoJS.enc.Base64)
  abbrev pub base64_id : Text → Text
  base64_id id = base64_stringify (utf8_parse id)

  -- The hash of the password's ciphertext under a key that the id gives.
  unfoldable pub hash_encrypted_psw : (id psw : Text) → WordArray
  hash_encrypted_psw id psw =
      sha256
        (cbc_encrypt (utf8_parse psw)
          (hex_parse (substring (hex_stringify (sha256 (utf8_parse id))) 0 (length iv)))
          (hex_parse iv)).ciphertext

  unfoldable pub get_encrypted_merge_msg : (id psw : Text) → Text
  unfolding hash_encrypted_psw
  get_encrypted_merge_msg id psw =
      let hash = hash_encrypted_psw id psw in
      base64_id id $ base64_stringify hash $ base64_stringify (hmac_sha256 (utf8_parse id) hash)

  unfoldable pub core_id_exist_regist_request : (id : Text) → Text
  core_id_exist_regist_request id = core_id_exist $ base64_id id

  -- `none` is the manager level null.
  unfoldable pub core_id_psw_regist_request : (manager_level : Option Text) (id psw : Text) → Text
  unfolding get_encrypted_merge_msg
  core_id_psw_regist_request none id psw = core_id_psw_reg_req $ get_encrypted_merge_msg id psw
  core_id_psw_regist_request (some level) id psw =
      manager_id_psw_reg_req $ level $ get_encrypted_merge_msg id psw

  unfoldable pub core_log_in_start_request : Text
  core_log_in_start_request = core_log_in_start_req

  unfoldable pub core_log_in_request : (id psw nonce : Text) (is_manager : Bool) → Text
  unfolding get_encrypted_merge_msg
  core_log_in_request id psw nonce true =
      manager_log_in_req $ get_encrypted_merge_msg id psw $ nonce
  core_log_in_request id psw nonce false = core_log_in_req $ get_encrypted_merge_msg id psw $ nonce

  -- The message of the new password goes without its first field, the id.
  unfoldable pub core_change_psw_request : (id psw new_psw : Text) → Text
  unfolding get_encrypted_merge_msg
  core_change_psw_request id psw new_psw =
      let ciphered_new_psw_msg = get_encrypted_merge_msg id new_psw in
      core_change_psw_req
      $ get_encrypted_merge_msg id psw
      $ after_dollar ciphered_new_psw_msg (index_of ciphered_new_psw_msg (codes "$"))

  unfoldable pub core_un_regist_request : (id : Text) → Text
  core_un_regist_request id = core_un_regist_req $ base64_id id

  unfoldable pub generate_restore_wallet_msg : (id : Text) → Text
  generate_restore_wallet_msg id = wallet_restore_req $ base64_id id

  -- The registration from the parts of a restore message.
  unfoldable pub regist_from : (id psw hmac_encrypted_puk enc_prk enc_puk enc_salt : Text) → Text
  regist_from id psw hmac_encrypted_puk enc_prk enc_puk enc_salt =
      let origin_hmac = hex_parse (hex_stringify (base64_parse hmac_encrypted_puk)) in
      let origin_puk = hex_parse (hex_stringify (base64_parse enc_puk)) in
      let origin_salt = hex_parse (hex_stringify (base64_parse enc_salt)) in
      wallet_regist_req
      $ base64_id id
      $ base64_stringify (hex_parse psw)
      $ enc_prk
      $ base64_stringify (concat (concat origin_puk origin_hmac) origin_salt)

  -- secondSplit[0] is a string whenever firstSplit[1] is.
  unfoldable pub generate_wallet_regist_msg : (id psw restore_msg : Text) → Result Text
  unfolding regist_from
  generate_wallet_regist_msg id psw restore_msg =
      let first_split = split b'%' restore_msg in
      bind_result (member (get_elem? first_split 1)) λ body.
        bind_result (member (get_elem? first_split 0)) λ hmac_encrypted_puk.
          bind_result (member (get_elem? (split b'$' body) 1)) λ enc_puk.
            bind_result (member (get_elem? (split b'$' body) 2)) λ enc_salt.
              map_result (λ enc_prk. regist_from id psw hmac_encrypted_puk enc_prk enc_puk enc_salt)
                (member (get_elem? (split b'$' body) 0))

-- A signature under a key pair made for this one message.
unfoldable pub generate_sign : Kjur → (message : Text) (seed nonce : ℕ) → Text
unfolding do_generate do_sign
generate_sign k message seed nonce =
    let curve = codes "secp256r1" in
    let key_pair = do_generate k curve seed in
    do_sign k curve (codes "SHA256withECDSA") message key_pair.ecprvhex nonce
