-- ===== src/Wallet/Sign.antt =====
-- getPublicKey, getWalletAddr, generateTransactionSign, verifyTransactionSign and setType.
use moa_crypto.Common.{ℕ, Bool, true, false, not, ◌&&◌, Option, none, some, if◌then◌else◌}
use moa_crypto.Text.{Text, codes, contains}
use moa_crypto.Browser.{Script, pure, lift, member, ◌>>=◌, get_item, set_item}
use moa_crypto.CryptoModule.{CryptoModule}
use moa_crypto.Kjur.{Kjur, do_sign, do_verify}
use moa_crypto.Wallet.{options, is_restore, type_normal, type_restore, wallet_type}
use moa_crypto.Wallet.Cipher.{decrypt_prk}
use moa_crypto.Wallet.Mac.{verify_mac}

-- localStorage.getItem("Wallet.Type").indexOf("R") > -1
abbrev pub kept_is_restore : Script Bool
kept_is_restore = do kept ← get_item wallet_type; type ← lift (member kept); pure (is_restore type)

-- `none` in a result is null.
unfoldable pub get_public_key : Script (Option Text)
get_public_key = do
  restore ← kept_is_restore
  if restore then get_item (codes "R.Wallet.PublicKey") else get_item (codes "Wallet.PublicKey")

unfoldable pub get_wallet_addr : Script (Option Text)
get_wallet_addr = do
  restore ← kept_is_restore
  if restore then get_item (codes "R.Wallet.Addr") else get_item (codes "Wallet.Addr")

unfoldable pub set_type : Text → Script (Unit {0})
set_type type =
    if not (contains type type_normal) && not (contains type type_restore)
    then pure tt
    else set_item wallet_type type

module _ (c : CryptoModule) (k : Kjur) where
  open c use {WordArray, hex_stringify, hex_parse, base64_stringify}

  -- What follows once the MAC is found right, with the two keys that the type selects.
  unfoldable pub sign_with :
      (ciphered_key salt_key transaction password : Text) (nonce : ℕ) → Script (Option Text)
  unfolding do_sign
  sign_with ciphered_key salt_key transaction password nonce = do
    ciphered ← get_item ciphered_key
    target ← lift (member ciphered)
    kept_salt ← get_item salt_key
    salt ← lift (member kept_salt)
    let prk = decrypt_prk c (base64_stringify (hex_parse target)) password (hex_parse salt)
    pure (
        some
          (do_sign k options.ecc_curve options.signature_alg transaction (hex_stringify prk) nonce))

  unfoldable pub sign_if :
      (intact restore : Bool) (transaction password : Text) (nonce : ℕ) → Script (Option Text)
  unfolding sign_with
  sign_if true true = sign_with (codes "R.Ciphered.Data") (codes "R.Salt.Value")
  sign_if true false = sign_with (codes "Ciphered.Data") (codes "Salt.Value")
  sign_if false restore = λ _ _ _. pure none

  -- The result `none` is undefined, after the alert of a MAC that does not match.
  unfoldable pub generate_transaction_sign :
      (transaction password : Text) (nonce : ℕ) → Script (Option Text)
  generate_transaction_sign transaction password nonce = do
    kept ← get_item wallet_type
    type ← lift (member kept)
    intact ← verify_mac c type password
    sign_if intact (is_restore type) transaction password nonce

unfoldable pub verify_transaction_sign : Kjur → (transaction sign puk : Text) → Bool
unfolding do_verify
verify_transaction_sign k transaction sign puk =
    do_verify k options.ecc_curve options.signature_alg transaction sign puk
