-- ===== src/Auth.antt =====
-- moaClientCoreAuthLib
-- (JavascriptSrc/WebContent/wallet/moaSecurityJS/moaClientCoreAuthLib-v1.0.1.js): the message
-- codes, and the recognition of replies.
pub mod Requests
pub mod Replies
pub mod Fields
mod Tests
use moa_crypto.Common.{
  ℕ, zero, suc, ◌+◌, Bool, true, false, ◌&&◌, ◌||◌, Option, none, some, List, [], ◌∷◌, length,
  get_elem?, if◌then◌else◌,
}
use moa_crypto.Text.{Text, codes, index_of, is_zero, contains, split, substring, to_upper}
use moa_crypto.Browser.{Result, ok, type_error, member}
use moa_crypto.Wallet.Mac.{bind_result}

abbrev pub core_id_exist : Text
core_id_exist = codes "4D4F410001"

abbrev pub core_id_exist_ack : Text
core_id_exist_ack = codes "4D4F410002"

abbrev pub core_id_psw_reg_req : Text
core_id_psw_reg_req = codes "4D4F410003"

abbrev pub core_id_psw_reg_res : Text
core_id_psw_reg_res = codes "4D4F410004"

abbrev pub manager_id_psw_reg_req : Text
manager_id_psw_reg_req = codes "4D4F410013"

abbrev pub manager_id_psw_reg_res : Text
manager_id_psw_reg_res = codes "4D4F410014"

abbrev pub core_log_in_start_req : Text
core_log_in_start_req = codes "4D4F412001"

abbrev pub core_log_in_start_res : Text
core_log_in_start_res = codes "4D4F412002"

abbrev pub core_log_in_req : Text
core_log_in_req = codes "4D4F412003"

abbrev pub core_log_in_res : Text
core_log_in_res = codes "4D4F412004"

abbrev pub manager_log_in_req : Text
manager_log_in_req = codes "4D4F412013"

abbrev pub manager_log_in_res : Text
manager_log_in_res = codes "4D4F412014"

abbrev pub core_change_psw_req : Text
core_change_psw_req = codes "4D4F413001"

abbrev pub core_change_psw_res : Text
core_change_psw_res = codes "4D4F413002"

abbrev pub core_un_regist_req : Text
core_un_regist_req = codes "4D4F413007"

abbrev pub core_un_regist_res : Text
core_un_regist_res = codes "4D4F413008"

abbrev pub wallet_regist_req : Text
wallet_regist_req = codes "4D4F414003"

abbrev pub wallet_regist_res : Text
wallet_regist_res = codes "4D4F414004"

abbrev pub wallet_restore_req : Text
wallet_restore_req = codes "4D4F414007"

abbrev pub wallet_restore_res : Text
wallet_restore_res = codes "4D4F414008"

abbrev pub wallet_regist_success : Text
wallet_regist_success = codes "6080"

abbrev pub wallet_restore_success : Text
wallet_restore_success = codes "6084"

-- header.indexOf(code) == 0
abbrev pub has_code : Text → Text → Bool
has_code header code = is_zero (index_of header code)

unfoldable pub check_header : Text → Bool
unfolding index_of
check_header header =
    if has_code header core_id_exist_ack
      || (has_code header core_id_psw_reg_res
          || (has_code header manager_id_psw_reg_res
              || (has_code header core_log_in_start_res
                  || (has_code header core_log_in_res
                      || (has_code header manager_log_in_res
                          || (has_code header core_change_psw_res
                              || has_code header core_un_regist_res))))))
    then true
    else false

-- The reply's fields behind the header that ends at the index given; "" for -1 and for a header
-- that is not known.
unfoldable pub parse_at : Text → Option ℕ → Text
unfolding check_header to_upper
parse_at message none = []
parse_at message (some header_index) =
    if check_header (to_upper (substring message 0 header_index))
    then substring message (header_index + 1) (length message)
    else []

unfoldable pub core_msg_packet_parser : Text → Text
unfolding parse_at
core_msg_packet_parser message = parse_at message (index_of message (codes "$"))

-- verifyMsg[0].indexOf(code) > -1 && verifyMsg[1].indexOf(state) > -1: the second field is not
-- read where the first does not fit.
unfoldable pub verify_state : (code state : Text) → List Text → Result Bool
verify_state code state [] = type_error
verify_state code state (header ∷ []) = if contains header code then type_error else ok false
verify_state code state (header ∷ field ∷ rest) =
    ok (if contains header code && contains field state then true else false)

unfoldable pub verify_register_wallet_msg : Text → Result Bool
unfolding verify_state index_of split
verify_register_wallet_msg msg =
    verify_state wallet_regist_res wallet_regist_success (split b'$' msg)

unfoldable pub verify_restore_wallet_msg : Text → Result Bool
unfolding verify_state index_of split
verify_restore_wallet_msg msg =
    verify_state wallet_restore_res wallet_restore_success (split b'$' msg)
