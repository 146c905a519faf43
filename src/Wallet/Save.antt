-- ===== src/Wallet/Save.antt =====
-- saveData: a wallet is written only where none of its kind is kept.
use moa_crypto.Common.{none, some, Option}
use moa_crypto.Text.{Text, codes, to_string}
use moa_crypto.Browser.{Script, lift, ◌>>=◌, ◌>>◌, get_item, set_item, alert}
use moa_crypto.CryptoModule.{CryptoModule}
use moa_crypto.Wallet.{Properties, options, get_wallet_properties, wallet_type}
use moa_crypto.Wallet.Values.{Value, as_text, call_to_string}

pub record DataForSave (W : Type 0) : Type 0 where
  pub type : Text
  pub salt : W
  pub target : Value W
  pub puk : Value W
  pub address : W
  pub mac : W

abbrev pub exists_message : Text
exists_message = codes "wallet already exist!"

module _ (c : CryptoModule) where
  open c use {WordArray, hex_stringify, base64_parse}

  -- The writes, once the name is known to be free.
  unfoldable pub write_data : Properties → DataForSave WordArray → Script (Unit {0})
  write_data properties d = do
    set_item wallet_type d.type
    set_item properties.version (to_string options.version_info)
    set_item properties.os options.os_name
    set_item properties.salt (hex_stringify d.salt)
    set_item properties.iteration_cnt (to_string options.iteration_count)
    target ← lift (call_to_string c d.target)
    set_item properties.ciphered_data (hex_stringify (base64_parse target))
    set_item properties.wallet_puk (as_text c d.puk)
    set_item properties.wallet_addr (hex_stringify d.address)
    set_item properties.mac_data (hex_stringify d.mac)

  unfoldable pub save_if_free : Properties → DataForSave WordArray → Option Text → Script (Unit {0})
  unfolding write_data
  save_if_free properties d none = write_data properties d
  save_if_free properties d (some version) = alert exists_message

  unfoldable pub save_data : DataForSave WordArray → Script (Unit {0})
  unfolding get_wallet_properties save_if_free
  save_data d = do
    let properties = get_wallet_properties d.type
    version ← get_item properties.version
    save_if_free properties d version
