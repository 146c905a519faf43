-- ===== src/Wallet/Tests/Pages.antt =====
-- Pages that make, keep and use wallets, on the concrete module.
use moa_crypto.Common.{◌≡◌, refl, none, some, true, false, ◌∷◌, []}
use moa_crypto.Text.{Text, codes, digit, index_of, to_radix}
use moa_crypto.Browser.{Page, ok, blank, write}
use moa_crypto.CryptoModule.Toy.{toy, toy-CodecLaws, toy-CipherLaws}
use moa_crypto.Kjur.Toy.{toy_kjur}
use moa_crypto.Wallet.{salt_size, get_wallet_properties, type_normal, type_restore, wallet_type}
use moa_crypto.Wallet.Create.{create_non_restore_wallet}
use moa_crypto.Wallet.Sign.{
  get_public_key, get_wallet_addr, generate_transaction_sign, verify_transaction_sign, set_type,
}
use moa_crypto.Wallet.Mac.{generate_addr, verify_mac, generate_mac, mismatch_message}
use moa_crypto.Wallet.Lifecycle.{generated, create_sign_verify, create_non_restore_wallet-IsKept}
use moa_crypto.Wallet.Restored.{restore_sign_verify, create_restore_wallet-IsKept}
use moa_crypto.Wallet.Integrity.{verify_mac-IsKept}
use moa_crypto.Wallet.Guards.{
  signs_only_intact, generate_transaction_sign-mismatch, generate_transaction_sign-storage,
  set_type_lem,
}
use moa_crypto.Wallet.Restore.{create_restore_wallet}
use moa_crypto.Wallet.Coexist.{restore_keeps_normal, normal_keeps_restore}
use moa_crypto.Wallet.Cipher.{encrypt_prk}
use moa_crypto.Wallet.Tests.{
  the_keys, HasNormal, HasRestore, a_draw, normal_address, normal_target, normal_whole,
  prk-IsUnsalted, puk-IsUnsalted, pw, restore_address, restore_whole, the_data, the_page,
  the_restored, the_signature,
}

create_sign_verify_example :
    (create_non_restore_wallet toy toy_kjur a_draw 7 pw blank ≡ (ok tt, the_page))
    × (generate_transaction_sign toy toy_kjur (codes "tx") pw 3 the_page
        ≡ (ok (some the_signature), the_page))
    × (get_public_key the_page ≡ (ok (some (generated toy_kjur 7).ecpubhex), the_page))
    × (get_wallet_addr the_page ≡ (
      ok (
          some (
            toy.hex_stringify
              (generate_addr toy (toy.utf8_parse (generated toy_kjur 7).ecpubhex)))),
      the_page,
    ))
    × (verify_transaction_sign toy_kjur (codes "tx") the_signature (generated toy_kjur 7).ecpubhex
        ≡ true)
create_sign_verify_example =
    create_sign_verify toy toy_kjur a_draw 7 pw blank refl toy-CodecLaws toy-CipherLaws the_keys
      prk-IsUnsalted (codes "tx") 3

restore_sign_verify_example :
    (create_restore_wallet toy (a_draw 1 8) pw (some the_data) blank ≡ (ok tt, the_restored))
    × (generate_transaction_sign toy toy_kjur (codes "tx") pw 3 the_restored
        ≡ (ok (some the_signature), the_restored))
    × (get_public_key the_restored ≡ (ok (some (generated toy_kjur 7).ecpubhex), the_restored))
    × (verify_transaction_sign toy_kjur (codes "tx") the_signature (generated toy_kjur 7).ecpubhex
        ≡ true)
restore_sign_verify_example =
    restore_sign_verify toy toy-CodecLaws toy-CipherLaws toy_kjur a_draw 7 pw (a_draw 1 8) blank
      refl prk-IsUnsalted puk-IsUnsalted the_keys (codes "tx") 3

create_non_restore_wallet-IsKept_example :
    (create_non_restore_wallet toy toy_kjur a_draw 7 pw blank ≡ (ok tt, the_page))
    × HasNormal the_page
create_non_restore_wallet-IsKept_example =
    create_non_restore_wallet-IsKept toy toy_kjur a_draw 7 pw blank refl

create_restore_wallet-IsKept_example :
    (create_restore_wallet toy (a_draw 1 8) pw (some the_data) blank ≡ (ok tt, the_restored))
    × HasRestore the_restored
create_restore_wallet-IsKept_example =
    create_restore_wallet-IsKept toy toy-CodecLaws toy-CipherLaws toy_kjur a_draw 7 pw (a_draw 1 8)
      blank refl puk-IsUnsalted the_keys.ecpubhex-IsHex

restore_keeps_normal_example :
    HasNormal
      (set_type type_normal
        (create_restore_wallet toy (a_draw 2 8) (codes "other") (some the_data) the_page).1).1
restore_keeps_normal_example =
    restore_keeps_normal toy pw (a_draw 0 salt_size) normal_target (generated toy_kjur 7).ecpubhex
      normal_address the_page normal_whole (a_draw 2 8) (codes "other") (some the_data)

normal_keeps_restore_example :
    HasRestore
      (set_type type_restore
        (create_non_restore_wallet toy toy_kjur a_draw 9 (codes "other") the_restored).1).1
normal_keeps_restore_example =
    normal_keeps_restore toy pw (a_draw 0 salt_size) normal_target (generated toy_kjur 7).ecpubhex
      restore_address the_restored restore_whole toy_kjur a_draw 9 (codes "other")

verify_mac-IsKept_example : verify_mac toy type_normal pw the_page ≡ (ok true, the_page)
verify_mac-IsKept_example =
    verify_mac-IsKept toy toy-CodecLaws type_normal pw (a_draw 0 salt_size)
      (encrypt_prk toy (a_draw 1 8) (generated toy_kjur 7).ecprvhex pw (a_draw 0 salt_size))
      (generated toy_kjur 7).ecpubhex normal_address the_page normal_whole

signed :
    generate_transaction_sign toy toy_kjur (codes "tx") pw 3 the_page
    ≡ (ok (some the_signature), the_page)
signed =
    (create_sign_verify toy toy_kjur a_draw 7 pw blank refl toy-CodecLaws toy-CipherLaws the_keys
      prk-IsUnsalted (codes "tx") 3).1

signs_only_intact_example :
    (type : Text) × (the_page.storage wallet_type ≡ some type)
    × (verify_mac toy type pw the_page ≡ (ok true, the_page))
    × (the_page ≡ the_page)
signs_only_intact_example =
    signs_only_intact toy toy_kjur (codes "tx") pw 3 the_page the_page the_signature signed

-- A page whose entries were changed by hand.
abbrev tampered : Page
tampered = record {
  storage =
      write
        (write
          (write
            (write (write (λ _. none) wallet_type type_normal) (codes "Ciphered.Data") (codes "a1"))
            (codes "Wallet.PublicKey") (codes "04"))
          (codes "Wallet.Addr") (codes "05"))
        (codes "MAC.Data") (codes "00");
  alerts = [];
}

mac_wrong : (verify_mac toy type_normal pw tampered).0 ≡ ok false
unfolding verify_mac generate_mac get_wallet_properties index_of digit to_radix
mac_wrong = refl

generate_transaction_sign-mismatch_example :
    generate_transaction_sign toy toy_kjur (codes "tx") pw 3 tampered
    ≡ (ok none, record tampered { alerts = mismatch_message ∷ [] })
generate_transaction_sign-mismatch_example =
    generate_transaction_sign-mismatch toy toy_kjur (codes "tx") pw type_normal 3 tampered refl
      mac_wrong

generate_transaction_sign-storage_example :
    (generate_transaction_sign toy toy_kjur (codes "tx") pw 3 tampered).1.storage ≡ tampered.storage
generate_transaction_sign-storage_example =
    generate_transaction_sign-storage toy toy_kjur (codes "tx") pw 3 tampered

set_type_lem_example :
    set_type (codes "neither") blank
    ≡ (ok tt, record blank { storage = write blank.storage wallet_type (codes "neither") })
set_type_lem_example = set_type_lem (codes "neither") blank
