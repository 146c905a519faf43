-- ===== src/Wallet/Integrity.antt =====
-- What a kept wallet is, and that the MAC made on creation is the one that is checked.
use moa_crypto.Common.{◌≡◌, refl, true, none, some, ◌++◌, ◌*◌, Bool-cases, ◌⊎◌, inl, inr}
use moa_crypto.Text.{Text, codes, substr, to_string}
use moa_crypto.Text.Laws.{index_of_self}
use moa_crypto.Browser.{Page, Storage, ok, write}
use moa_crypto.CryptoModule.{CryptoModule, CipherParams, CodecLaws}
use moa_crypto.Wallet.{
  Properties, options, salt_size, is_restore, get_wallet_properties, names_with, wallet_type,
}
use moa_crypto.Wallet.Values.{Value, cipher, as_text, call_to_string}
use moa_crypto.Wallet.Mac.{verify_mac}
use moa_crypto.Wallet.Create.{combine_salt_with_psw, seal}
use moa_crypto.Wallet.KeyRecovery.{kept_text}

module _ (c : CryptoModule) where
  open c use {
    WordArray, hex_stringify, hex_parse, base64_stringify, base64_parse, utf8_parse, sha256,
    hmac_sha256,
  }

  -- The MAC of a wallet, from the texts that it covers.
  abbrev pub mac_of :
      (type password : Text) (salt : WordArray) (target puk address : Text) → WordArray
  mac_of type password salt target puk address =
      hmac_sha256
        (utf8_parse (
          ((to_string options.version_info ++ options.os_name) ++ type)
          ++ (substr (combine_salt_with_psw c salt password) 0 (salt_size * 2)
              ++ (to_string options.iteration_count ++ (target ++ (puk ++ address))))))
        (sha256 (utf8_parse (combine_salt_with_psw c salt password)))

  -- localStorage holds a whole wallet under the names given.
  pub record IsKept (names : Properties) (type password : Text) (salt : WordArray)
      (target puk address : Text) (s : Storage) : Type 0 where
    pub type_kept : s wallet_type ≡ some type
    pub version_kept : s names.version ≡ some (to_string options.version_info)
    pub os_kept : s names.os ≡ some options.os_name
    pub salt_kept : s names.salt ≡ some (hex_stringify salt)
    pub iteration_cnt_kept : s names.iteration_cnt ≡ some (to_string options.iteration_count)
    pub target_kept : s names.ciphered_data ≡ some target
    pub puk_kept : s names.wallet_puk ≡ some puk
    pub address_kept : s names.wallet_addr ≡ some address
    pub mac_kept :
        s names.mac_data ≡ some (hex_stringify (mac_of type password salt target puk address))

  -- localStorage after the writes of saveData.
  abbrev pub saved :
      (names : Properties) (type password : Text) (salt : WordArray) (target puk address : Text)
      → Storage
      → Storage
  saved names type password salt target puk address s =
      write
        (write
          (write
            (write
              (write
                (write
                  (write
                    (write (write s wallet_type type) names.version
                      (to_string options.version_info))
                    names.os options.os_name)
                  names.salt (hex_stringify salt))
                names.iteration_cnt (to_string options.iteration_count))
              names.ciphered_data target)
            names.wallet_puk puk)
          names.wallet_addr address)
        names.mac_data (hex_stringify (mac_of type password salt target puk address))

  saved_under :
      (prefix : Text)
      → (prefix ≡ codes "R.") ⊎ (prefix ≡ codes "")
      → (type password : Text) (salt : WordArray) (target puk address : Text) (s : Storage)
      → IsKept
          (names_with prefix)
          type
          password
          salt
          target
          puk
          address
          (saved (names_with prefix) type password salt target puk address s)
  saved_under prefix (inl e) type password salt target puk address s = rw e (record {
    type_kept = refl;
    version_kept = refl;
    os_kept = refl;
    salt_kept = refl;
    iteration_cnt_kept = refl;
    target_kept = refl;
    puk_kept = refl;
    address_kept = refl;
    mac_kept = refl;
  })
  saved_under prefix (inr e) type password salt target puk address s = rw e (record {
    type_kept = refl;
    version_kept = refl;
    os_kept = refl;
    salt_kept = refl;
    iteration_cnt_kept = refl;
    target_kept = refl;
    puk_kept = refl;
    address_kept = refl;
    mac_kept = refl;
  })

  pub saved-IsKept :
      (type password : Text) (salt : WordArray) (target puk address : Text) (s : Storage)
      → IsKept
          (get_wallet_properties type)
          type
          password
          salt
          target
          puk
          address
          (saved (get_wallet_properties type) type password salt target puk address s)
  unfolding get_wallet_properties
  saved-IsKept type password salt target puk address s = elim (Bool-cases (is_restore type)) [
    | inl restore ↦
        rw restore (saved_under (codes "R.") (inl refl) type password salt target puk address s)
    | inr normal ↦
        rw normal (saved_under (codes "") (inr refl) type password salt target puk address s)
  ]

  -- verifyMAC accepts a whole wallet of any type under the password that its MAC was made with,
  -- and leaves the page as it is, under the laws of the encoders.
  pub verify_mac-IsKept :
      CodecLaws c
      → (type password : Text) (salt : WordArray) (target : CipherParams WordArray)
        (puk address : Text) (p : Page)
      → IsKept
          (get_wallet_properties type)
          type
          password
          salt
          (kept_text c target)
          puk
          address
          p.storage
      → verify_mac c type password p ≡ (ok true, p)
  unfolding verify_mac
  verify_mac-IsKept codec type password salt target puk address p h = rw (
    h.version_kept,
    h.os_kept,
    h.salt_kept,
    h.iteration_cnt_kept,
    h.target_kept,
    h.puk_kept,
    h.address_kept,
    h.mac_kept,
    codec.base64_parse-base64_stringify,
    codec.hex_stringify-hex_parse (kept_text c target) (codec.hex_stringify-IsHex _),
    index_of_self,
  )

  -- Sealing writes the wallet, where none of its kind is kept.
  pub seal_lem :
      (type password : Text) (salt : WordArray) (target : CipherParams WordArray)
      (puk : Value WordArray) (puk_text : Text) (address : WordArray) (p : Page)
      → call_to_string c puk ≡ ok puk_text
      → as_text c puk ≡ puk_text
      → p.storage (get_wallet_properties type).version ≡ none
      → seal c type password salt (cipher target) puk address p ≡ (
        ok tt,
        record p {
          storage =
              saved
                (get_wallet_properties type)
                type
                password
                salt
                (kept_text c target)
                puk_text
                (hex_stringify address)
                p.storage;
        },
      )
  unfolding seal
  seal_lem type password salt target puk puk_text address p called joined free =
      rw (called, free, joined)

  -- Sealing succeeds and leaves a whole wallet.
  pub seal-IsKept :
      (type password : Text) (salt : WordArray) (target : CipherParams WordArray)
      (puk : Value WordArray) (puk_text : Text) (address : WordArray) (p : Page)
      → call_to_string c puk ≡ ok puk_text
      → as_text c puk ≡ puk_text
      → p.storage (get_wallet_properties type).version ≡ none
      → (seal c type password salt (cipher target) puk address p
          ≡ (ok tt, (seal c type password salt (cipher target) puk address p).1))
        × IsKept
            (get_wallet_properties type)
            type
            password
            salt
            (kept_text c target)
            puk_text
            (hex_stringify address)
            (seal c type password salt (cipher target) puk address p).1.storage
  seal-IsKept type password salt target puk puk_text address p called joined free =
      rw (seal_lem type password salt target puk puk_text address p called joined free) (
        refl,
        saved-IsKept type password salt (kept_text c target) puk_text (hex_stringify address)
            p.storage,
      )
