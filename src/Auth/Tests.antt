-- ===== src/Auth/Tests.antt =====
-- The messages of moaClientCoreAuthLib at concrete inputs.
use moa_crypto.Common.{◌≡◌, refl, true, false, ◌∷◌, [], ◌++◌, ◌↔◌, none, some, arith, if◌then◌else◌}
use moa_crypto.Text.{codes, split, contains, to_upper}
use moa_crypto.Text.Laws.{Free}
use moa_crypto.Browser.{ok, type_error}
use moa_crypto.CryptoModule.Toy.{toy, toy-CodecLaws}
use moa_crypto.Auth.{
  core_msg_packet_parser, verify_register_wallet_msg, verify_restore_wallet_msg, wallet_regist_res,
  wallet_regist_success, wallet_restore_res, wallet_restore_success, core_id_psw_reg_req,
  manager_id_psw_reg_req, core_log_in_req, manager_log_in_req, core_change_psw_req,
}
use moa_crypto.Auth.Replies.{
  begins_with_one, reply_codes, core_msg_packet_parser_lem, verify_wallet_msg_iff, IsSuccess,
}
use moa_crypto.Auth.Requests.{
  core_id_psw_regist_request, core_log_in_request, core_change_psw_request, hash_encrypted_psw,
}
use moa_crypto.Auth.Fields.{
  credentials, split-core_id_psw_regist_request, split-core_log_in_request,
  split-core_change_psw_request,
}

core_msg_packet_parser_lem_example :
    (core_msg_packet_parser (codes "4d4f412004" ++ b'$' ∷ codes "ok")
      ≡ (if begins_with_one reply_codes (to_upper (codes "4d4f412004")) then codes "ok" else []))
    × (core_msg_packet_parser (codes "4d4f412004") ≡ [])
core_msg_packet_parser_lem_example =
    core_msg_packet_parser_lem (codes "4d4f412004") (codes "ok") (ground arith)

verify_wallet_msg_iff_example :
    ((verify_register_wallet_msg (codes "4D4F414004$6080$x") ≡ ok true)
      ↔ IsSuccess wallet_regist_res wallet_regist_success (codes "4D4F414004$6080$x"))
    × ((verify_register_wallet_msg (codes "4D4F414004$6080$x") ≡ type_error) ↔ (
        Free b'$' (codes "4D4F414004$6080$x")
        × (contains (codes "4D4F414004$6080$x") wallet_regist_res ≡ true)))
    × ((verify_restore_wallet_msg (codes "4D4F414004$6080$x") ≡ ok true)
        ↔ IsSuccess wallet_restore_res wallet_restore_success (codes "4D4F414004$6080$x"))
    × ((verify_restore_wallet_msg (codes "4D4F414004$6080$x") ≡ type_error) ↔ (
        Free b'$' (codes "4D4F414004$6080$x")
        × (contains (codes "4D4F414004$6080$x") wallet_restore_res ≡ true)))
verify_wallet_msg_iff_example = verify_wallet_msg_iff (codes "4D4F414004$6080$x")

-- A reply with its code and no "$" stops the check.
verify_register_wallet_msg_test :
    (verify_register_wallet_msg (codes "4D4F414004") ≡ type_error)
    × (verify_register_wallet_msg (codes "4D4F414004$6080$x") ≡ ok true)
unfolding verify_register_wallet_msg
verify_register_wallet_msg_test = (refl, refl)

split-core_id_psw_regist_request_example :
    (split b'$' (core_id_psw_regist_request toy none (codes "me") (codes "pw"))
      ≡ core_id_psw_reg_req ∷ credentials toy (codes "me") (codes "pw"))
    × (split b'$' (core_id_psw_regist_request toy (some (codes "0x61")) (codes "me") (codes "pw"))
        ≡ manager_id_psw_reg_req ∷ codes "0x61" ∷ credentials toy (codes "me") (codes "pw"))
split-core_id_psw_regist_request_example =
    split-core_id_psw_regist_request toy toy-CodecLaws (codes "me") (codes "pw") (codes "0x61")
      (ground arith)

split-core_log_in_request_example :
    (split b'$' (core_log_in_request toy (codes "me") (codes "pw") (codes "n1") false)
      ≡ core_log_in_req ∷ (credentials toy (codes "me") (codes "pw") ++ split b'$' (codes "n1")))
    × (split b'$' (core_log_in_request toy (codes "me") (codes "pw") (codes "n1") true)
        ≡ manager_log_in_req
          ∷ (credentials toy (codes "me") (codes "pw") ++ split b'$' (codes "n1")))
split-core_log_in_request_example =
    split-core_log_in_request toy toy-CodecLaws (codes "me") (codes "pw") (codes "n1")

split-core_change_psw_request_example :
    split b'$' (core_change_psw_request toy (codes "me") (codes "pw") (codes "new"))
    ≡ core_change_psw_req
      ∷ (credentials toy (codes "me") (codes "pw")
          ++ toy.base64_stringify (hash_encrypted_psw toy (codes "me") (codes "new"))
            ∷ toy.base64_stringify (
                toy.hmac_sha256
                  (toy.utf8_parse (codes "me"))
                  (hash_encrypted_psw toy (codes "me") (codes "new")))
            ∷ [])
split-core_change_psw_request_example =
    split-core_change_psw_request toy toy-CodecLaws (codes "me") (codes "pw") (codes "new")
