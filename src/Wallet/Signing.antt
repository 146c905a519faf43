-- ===== src/Wallet/Signing.antt =====
-- What the readers of a kept wallet return: the signature under the decrypted key, the public key
-- and the address.
use moa_crypto.Common.{◌≡◌, true, some, Bool-cases, inl, inr, ℕ}
use moa_crypto.Text.{Text}
use moa_crypto.Browser.{Page, ok}
use moa_crypto.CryptoModule.{CryptoModule, CipherParams, CodecLaws}
use moa_crypto.Kjur.{Kjur, do_sign}
use moa_crypto.Wallet.{options, is_restore, get_wallet_properties}
use moa_crypto.Wallet.Cipher.{decrypt_prk}
use moa_crypto.Wallet.Sign.{get_public_key, get_wallet_addr, sign_if, generate_transaction_sign}
use moa_crypto.Wallet.KeyRecovery.{kept_text}
use moa_crypto.Wallet.Integrity.{IsKept, verify_mac-IsKept}

module _ (c : CryptoModule) (codec : CodecLaws c) where
  open c use {WordArray, hex_stringify, hex_parse, base64_stringify}

  -- The signature under the key that the kept texts decrypt to.
  abbrev pub kept_signature :
      (target password : Text) (salt : WordArray) (k : Kjur) (transaction : Text) (nonce : ℕ) → Text
  kept_signature target password salt k transaction nonce =
      do_sign k options.ecc_curve options.signature_alg transaction
        (hex_stringify (decrypt_prk c (base64_stringify (hex_parse target)) password salt)) nonce

  module _ {type password target puk address : Text} {salt : WordArray} (p : Page)
      (kept : IsKept c
        (get_wallet_properties type)
        type
        password
        salt
        target
        puk
        address
        p.storage) where
    sign_if_lem :
        (k : Kjur) (transaction : Text) (nonce : ℕ)
        → sign_if c k true (is_restore type) transaction password nonce p
          ≡ (ok (some (kept_signature target password salt k transaction nonce)), p)
    unfolding sign_if get_wallet_properties
    sign_if_lem k transaction nonce = elim (Bool-cases (is_restore type)) [
      | inl restore ↦ rw (
        restore,
        rw restore at kept.target_kept,
        rw restore at kept.salt_kept,
        codec.hex_parse-hex_stringify,
      )
      | inr normal ↦ rw (
        normal,
        rw normal at kept.target_kept,
        rw normal at kept.salt_kept,
        codec.hex_parse-hex_stringify,
      )
    ]

    pub get_public_key_lem : get_public_key p ≡ (ok (some puk), p)
    unfolding get_public_key get_wallet_properties
    get_public_key_lem = elim (Bool-cases (is_restore type)) [
      | inl restore ↦ rw (kept.type_kept, restore, rw restore at kept.puk_kept)
      | inr normal ↦ rw (kept.type_kept, normal, rw normal at kept.puk_kept)
    ]

    pub get_wallet_addr_lem : get_wallet_addr p ≡ (ok (some address), p)
    unfolding get_wallet_addr get_wallet_properties
    get_wallet_addr_lem = elim (Bool-cases (is_restore type)) [
      | inl restore ↦ rw (kept.type_kept, restore, rw restore at kept.address_kept)
      | inr normal ↦ rw (kept.type_kept, normal, rw normal at kept.address_kept)
    ]

  pub generate_transaction_sign_lem :
      {type password puk address : Text} {salt : WordArray} (target : CipherParams WordArray)
      (p : Page)
      (kept : IsKept c
        (get_wallet_properties type)
        type
        password
        salt
        (kept_text c target)
        puk
        address
        p.storage)
      (k : Kjur) (transaction : Text) (nonce : ℕ)
      → generate_transaction_sign c k transaction password nonce p
        ≡ (ok (some (kept_signature (kept_text c target) password salt k transaction nonce)), p)
  unfolding generate_transaction_sign
  generate_transaction_sign_lem {type} {password} {puk} {address} {salt} target p kept k transaction
        nonce =
      rw (
        kept.type_kept,
        verify_mac-IsKept c codec type password salt target puk address p kept,
        sign_if_lem p kept k transaction nonce,
      )
