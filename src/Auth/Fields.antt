-- ===== src/Auth/Fields.antt =====
-- The requests as lists of "$"-separated fields.
use moa_crypto.Common.{◌≡◌, ap, ◌∙◌, ◌++◌, none, some, List, [], ◌∷◌, true, false, arith}
use mathlib.Core.Path.{ap₂}
use moa_crypto.Text.{Text, codes, split, index_of}
use moa_crypto.Text.Laws.{
  Free, split-append, split_of_Free, split-append_any, index_of-unit, substring-append,
}
use moa_crypto.CryptoModule.{CryptoModule, CodecLaws}
use moa_crypto.Auth.{
  core_id_psw_reg_req, manager_id_psw_reg_req, core_log_in_req, manager_log_in_req,
  core_change_psw_req,
}
use moa_crypto.Auth.Requests.{
  ◌$◌, after_dollar, base64_id, hash_encrypted_psw, get_encrypted_merge_msg,
  core_id_psw_regist_request, core_log_in_request, core_change_psw_request,
}

split_fields :
    (s t : Text) (r : List Text) → Free b'$' s → split b'$' t ≡ r → split b'$' (s $ t) ≡ s ∷ r
split_fields s t r free e = split-append b'$' s t free ∙ ap (λ q. s ∷ q) e

module _ (c : CryptoModule) where
  open c use {base64_stringify, utf8_parse, hmac_sha256}

  -- The three fields by which a user is known: the id, the hash of the encrypted password, and the
  -- id's HMAC under that hash.
  abbrev pub credentials : (id psw : Text) → List Text
  credentials id psw =
      base64_id c id
      ∷ base64_stringify (hash_encrypted_psw c id psw)
      ∷ base64_stringify (hmac_sha256 (utf8_parse id) (hash_encrypted_psw c id psw))
      ∷ []

module _ (c : CryptoModule) (codec : CodecLaws c) where
  open c use {WordArray, base64_stringify, base64_parse, utf8_parse, hmac_sha256}

  split-get_encrypted_merge_msg :
      (id psw : Text) → split b'$' (get_encrypted_merge_msg c id psw) ≡ credentials c id psw
  unfolding get_encrypted_merge_msg
  split-get_encrypted_merge_msg id psw = split_fields _ _ _ (codec.base64_no_dollar _) (
      split_fields _ _ _ (codec.base64_no_dollar _)
        (split_of_Free b'$' _ (codec.base64_no_dollar _)))

  -- A registration has the header, the level of a manager where one is given, and the user's
  -- three fields, under the laws of the encoders and where the level holds no "$".
  pub split-core_id_psw_regist_request :
      (id psw level : Text)
      → Free b'$' level
      → (split b'$' (core_id_psw_regist_request c none id psw)
          ≡ core_id_psw_reg_req ∷ credentials c id psw)
        × (split b'$' (core_id_psw_regist_request c (some level) id psw)
            ≡ manager_id_psw_reg_req ∷ level ∷ credentials c id psw)
  unfolding core_id_psw_regist_request
  split-core_id_psw_regist_request id psw level free = (
    split_fields core_id_psw_reg_req _ _ (omega arith) (split-get_encrypted_merge_msg id psw),
    split_fields manager_id_psw_reg_req _ _ (omega arith)
        (split_fields level _ _ free (split-get_encrypted_merge_msg id psw)),
  )

  -- A login has the header, the user's three fields, and the fields of the nonce, which are one
  -- where it holds no "$", under the laws of the encoders.
  pub split-core_log_in_request :
      (id psw nonce : Text)
      → (split b'$' (core_log_in_request c id psw nonce false)
          ≡ core_log_in_req ∷ (credentials c id psw ++ split b'$' nonce))
        × (split b'$' (core_log_in_request c id psw nonce true)
            ≡ manager_log_in_req ∷ (credentials c id psw ++ split b'$' nonce))
  unfolding core_log_in_request
  split-core_log_in_request id psw nonce =
      let fields =
        split-append_any b'$' (get_encrypted_merge_msg c id psw) nonce
        ∙ ap (λ q. q ++ split b'$' nonce) (split-get_encrypted_merge_msg id psw) in
      (
        split_fields core_log_in_req _ _ (omega arith) fields,
        split_fields manager_log_in_req _ _ (omega arith) fields,
      )

  after_dollar-get_encrypted_merge_msg :
      (id psw : Text)
      → after_dollar
          (get_encrypted_merge_msg c id psw)
          (index_of (get_encrypted_merge_msg c id psw) (codes "$"))
        ≡ (base64_stringify (hash_encrypted_psw c id psw)
            $ base64_stringify (hmac_sha256 (utf8_parse id) (hash_encrypted_psw c id psw)))
  unfolding get_encrypted_merge_msg
  after_dollar-get_encrypted_merge_msg id psw =
      rw (index_of-unit b'$' (base64_id c id) _ (codec.base64_no_dollar _))
        (substring-append b'$' (base64_id c id) _)

  -- A change of password has the header, the user's three fields, and the hash and the HMAC of
  -- the new password: the id is not sent twice. The laws of the encoders are assumed.
  pub split-core_change_psw_request :
      (id psw new_psw : Text)
      → split b'$' (core_change_psw_request c id psw new_psw)
        ≡ core_change_psw_req
          ∷ (credentials c id psw
              ++ base64_stringify (hash_encrypted_psw c id new_psw)
                ∷ base64_stringify (hmac_sha256 (utf8_parse id) (hash_encrypted_psw c id new_psw))
                ∷ [])
  unfolding core_change_psw_request
  split-core_change_psw_request id psw new_psw =
      let fields =
        split_fields (base64_stringify (hash_encrypted_psw c id new_psw)) _ _
          (codec.base64_no_dollar _) (split_of_Free b'$' _ (codec.base64_no_dollar _)) in
      split_fields core_change_psw_req _ _ (omega arith) (
        split-append_any b'$' (get_encrypted_merge_msg c id psw) _
        ∙ ap₂ ◌++◌ (split-get_encrypted_merge_msg id psw)
            (ap (split b'$') (after_dollar-get_encrypted_merge_msg id new_psw) ∙ fields))
