-- ===== src/Wallet.antt =====
-- moaBCWalletLib (JavascriptSrc/WebContent/wallet/moaSecurityJS/moaBCWalletLib-v1.0.2.js): the
-- constants and options, and the names under which a wallet is kept in localStorage.
pub mod Values
pub mod Cipher
pub mod Mac
pub mod Save
pub mod Create
pub mod Sign
pub mod Restore
pub mod Password
pub mod KeyRecovery
pub mod Integrity
pub mod Signing
pub mod Lifecycle
pub mod Guards
pub mod RestoreFormat
pub mod KeyReuse
pub mod RestoreCycle
pub mod Halving
pub mod Registration
pub mod Steps
pub mod Reachable
pub mod Usable
mod Tests
pub mod Bytes
pub mod Coexist
pub mod Restored
use moa_crypto.Common.{ℕ, Bool, true, false, ◌||◌, ◌++◌, Option, none, some, if◌then◌else◌}
use moa_crypto.Text.{Text, codes, text_eq, contains}

abbrev pub type_restore : Text
type_restore = codes "R"

abbrev pub type_normal : Text
type_normal = codes ""

pub record Options : Type 0 where
  pub version_info : ℕ
  pub os_name : Text
  pub symmetric_alg : Text
  pub symmetric_key_size : ℕ
  pub hash_alg : Text
  pub signature_alg : Text
  pub ecc_curve : Text
  pub mac_alg : Text
  pub iteration_count : ℕ
  pub salt_size : Option ℕ

-- The switch of the constructor; `none` is a member that is never set.
abbrev pub salt_size_of : Text → Option ℕ
salt_size_of alg =
    if text_eq alg (codes "SHA3-256") || text_eq alg (codes "SHA256")
    then some 32
    else if text_eq alg (codes "SHA3-384") || text_eq alg (codes "SHA384")
    then some 48
    else if text_eq alg (codes "SHA3-512") || text_eq alg (codes "SHA512")
    then some 64
    else none

abbrev pub options : Options
options = record {
  version_info = 1;
  os_name = codes "WebBrowser";
  symmetric_alg = codes "AES/CTR/NoPadding";
  symmetric_key_size = 256;
  hash_alg = codes "SHA256";
  signature_alg = codes "SHA256withECDSA";
  ecc_curve = codes "secp256r1";
  mac_alg = codes "HmacSHA256";
  iteration_count = 4096;
  salt_size = salt_size_of (codes "SHA256");
}

-- options.SALT_SIZE where it is used as a number.
abbrev or_zero : Option ℕ → ℕ
or_zero none = 0
or_zero (some n) = n

abbrev pub salt_size : ℕ
salt_size = or_zero options.salt_size

pub record Properties : Type 0 where
  pub version : Text
  pub os : Text
  pub salt : Text
  pub iteration_cnt : Text
  pub ciphered_data : Text
  pub wallet_puk : Text
  pub wallet_addr : Text
  pub mac_data : Text

abbrev pub names_with : Text → Properties
names_with prefix = record {
  version = prefix ++ codes "Version.Info";
  os = prefix ++ codes "OS.Info";
  salt = prefix ++ codes "Salt.Value";
  iteration_cnt = prefix ++ codes "Iteration.Count";
  ciphered_data = prefix ++ codes "Ciphered.Data";
  wallet_puk = prefix ++ codes "Wallet.PublicKey";
  wallet_addr = prefix ++ codes "Wallet.Addr";
  mac_data = prefix ++ codes "MAC.Data";
}

-- type.indexOf("R") > -1
abbrev pub is_restore : Text → Bool
is_restore type = contains type (codes "R")

unfoldable pub get_wallet_properties : Text → Properties
get_wallet_properties type =
    if is_restore type then names_with (codes "R.") else names_with (codes "")

-- The key under which the current type is kept.
abbrev pub wallet_type : Text
wallet_type = codes "Wallet.Type"
