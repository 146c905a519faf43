-- ===== src/Wallet/Mac.antt =====
-- generateAddr, generateMAC and verifyMAC.
use moa_crypto.Common.{◌*◌, ◌++◌, Bool, true, false, Option, none, some, if◌then◌else◌}
use moa_crypto.Text.{Text, codes, substr, contains}
use moa_crypto.Browser.{
  Result, ok, type_error, Script, pure, lift, member, ◌>>=◌, ◌>>◌, get_item, alert,
}
use moa_crypto.CryptoModule.{CryptoModule}
use moa_crypto.Wallet.{get_wallet_properties, salt_size}
use moa_crypto.Wallet.Values.{Value, null, text, as_text, call_to_string, add}

pub record DataForMac (W : Type 0) : Type 0 where
  pub version : Value W
  pub os : Value W
  pub type : Text
  pub salt_and_psw : Text
  pub iteration_cnt : Value W
  pub target : Value W
  pub puk : Value W
  pub address : Value W

abbrev pub or_null : {W : Type 0} → Option Text → Value W
or_null none = null
or_null (some t) = text t

abbrev pub map_result : {A B : Type 0} → (A → B) → Result A → Result B
map_result f (ok a) = ok (f a)
map_result f type_error = type_error

abbrev pub bind_result : {A B : Type 0} → Result A → (A → Result B) → Result B
bind_result (ok a) f = f a
bind_result type_error f = type_error

abbrev pub mismatch_message : Text
mismatch_message = codes "[#] moaWallet Data Integrity Verify Error!"

module _ (c : CryptoModule) where
  open c use {
    WordArray, hex_stringify, hex_parse, base64_stringify, base64_parse, utf8_parse, sha256,
    hmac_sha256,
  }

  unfoldable pub generate_addr : WordArray → WordArray
  generate_addr message = hex_parse (substr (hex_stringify (sha256 message)) (12 * 2) (32 * 2))

  -- The text that is authenticated, from the fields as text.
  unfoldable pub combine_mac : DataForMac WordArray → (target puk address : Text) → Text
  combine_mac d target puk address =
      as_text c (add c (add c d.version d.os) (text d.type))
      ++ (substr d.salt_and_psw 0 (salt_size * 2)
          ++ (as_text c d.iteration_cnt
              ++ (hex_stringify (base64_parse target) ++ (puk ++ address))))

  unfoldable pub generate_mac : DataForMac WordArray → Result WordArray
  unfolding combine_mac
  generate_mac d =
      let hash = sha256 (utf8_parse d.salt_and_psw) in
      bind_result (call_to_string c d.target) λ target. bind_result (call_to_string c d.puk) λ puk.
        map_result (λ address. hmac_sha256 (utf8_parse (combine_mac d target puk address)) hash)
          (call_to_string c d.address)

  -- localStorage.getItem(salt) + CryptoJS.enc.Utf8.parse(password).toString(Hex)
  abbrev pub salt_and_psw_of : Option Text → Text → Text
  salt_and_psw_of salt password =
      as_text c (or_null {W = WordArray} salt) ++ hex_stringify (utf8_parse password)

  unfoldable pub verify_mac : (type password : Text) → Script Bool
  unfolding get_wallet_properties generate_mac
  verify_mac type password = do
    let properties = get_wallet_properties type
    version ← get_item properties.version
    os ← get_item properties.os
    salt ← get_item properties.salt
    iteration_cnt ← get_item properties.iteration_cnt
    ciphered ← get_item properties.ciphered_data
    ciphered_data ← lift (member ciphered)
    puk ← get_item properties.wallet_puk
    address ← get_item properties.wallet_addr
    mac ← get_item properties.mac_data
    fresh ← lift (
        generate_mac (record {
          version = or_null version;
          os = or_null os;
          type = type;
          salt_and_psw = salt_and_psw_of salt password;
          iteration_cnt = or_null iteration_cnt;
          target = text (base64_stringify (hex_parse ciphered_data));
          puk = or_null puk;
          address = or_null address;
        }))
    kept ← lift (member mac)
    if contains kept (hex_stringify fresh)
        then pure true
        else (alert mismatch_message >> pure false)
