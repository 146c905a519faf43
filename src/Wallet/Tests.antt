-- ===== src/Wallet/Tests.antt =====
-- The inputs of the wallet's examples: the concrete module of CryptoModule/Toy, a page with nothing
-- in localStorage, and the password "pw".
mod Pages
mod Messages
mod Calls
use moa_crypto.Common.{refl, ℕ, ◌/◌}
use moa_crypto.Text.{Text, codes, digit}
use moa_crypto.Text.Hex.{IsHex}
use moa_crypto.Browser.{Page, blank}
use moa_crypto.CryptoModule.{CryptoModule}
use moa_crypto.CryptoModule.Toy.{toy, toy-CodecLaws, toy-CipherLaws, fit, fit-IsHex}
use moa_crypto.Kjur.{KeyPairLaws, do_generate, do_sign}
use moa_crypto.Kjur.Toy.{toy_kjur, toy_kjur-KeyPairLaws}
use moa_crypto.Wallet.{options, salt_size, get_wallet_properties, type_normal, type_restore}
use moa_crypto.Wallet.Cipher.{encrypt_aes_data, encrypt_prk}
use moa_crypto.Wallet.KeyRecovery.{IsUnsalted, kept_text}
use moa_crypto.Wallet.Mac.{generate_addr}
use moa_crypto.Wallet.Lifecycle.{generated, created, create_non_restore_wallet-IsKept}
use moa_crypto.Wallet.Restored.{data_to_restore, restored, create_restore_wallet-IsKept}
use moa_crypto.Wallet.Integrity.{IsKept}

abbrev pub a_draw : ℕ → ℕ → toy.WordArray
a_draw i n = (fit n (codes "a1"), fit-IsHex n (codes "a1") (refl, refl, tt))

abbrev pub pw : Text
pw = codes "pw"

pub prk-IsUnsalted : IsUnsalted toy (generated toy_kjur 7).ecprvhex pw (a_draw 0 salt_size)
unfolding do_generate encrypt_aes_data digit
prk-IsUnsalted = refl

abbrev pub the_signature : Text
the_signature =
    do_sign toy_kjur options.ecc_curve options.signature_alg (codes "tx")
      (generated toy_kjur 7).ecprvhex 3

abbrev pub the_page : Page
the_page = created toy toy_kjur a_draw 7 pw blank

pub puk-IsUnsalted : IsUnsalted toy (generated toy_kjur 7).ecpubhex pw (a_draw 0 salt_size)
unfolding do_generate encrypt_aes_data digit
puk-IsUnsalted = refl

abbrev pub the_data : Text
the_data = data_to_restore toy toy_kjur a_draw 7 pw

abbrev pub the_restored : Page
the_restored = restored toy toy_kjur a_draw 7 pw (a_draw 1 8) blank

abbrev pub normal_address : Text
normal_address =
    toy.hex_stringify (generate_addr toy (toy.utf8_parse (generated toy_kjur 7).ecpubhex))

abbrev pub restore_address : Text
restore_address =
    toy.hex_stringify (generate_addr toy (toy.hex_parse (generated toy_kjur 7).ecpubhex))

abbrev pub normal_target : Text
normal_target =
    kept_text toy
      (encrypt_prk toy (a_draw 1 8) (generated toy_kjur 7).ecprvhex pw (a_draw 0 salt_size))

pub the_keys : KeyPairLaws toy_kjur options.ecc_curve options.signature_alg 7
the_keys = toy_kjur-KeyPairLaws options.ecc_curve options.signature_alg 7

-- A whole normal wallet and a whole restore wallet on a page.
abbrev pub HasNormal : Page → Type 0
HasNormal p =
    IsKept toy (get_wallet_properties type_normal) type_normal pw (a_draw 0 salt_size) normal_target
      (generated toy_kjur 7).ecpubhex normal_address p.storage

abbrev pub HasRestore : Page → Type 0
HasRestore p =
    IsKept toy (get_wallet_properties type_restore) type_restore pw (a_draw 0 salt_size)
      normal_target (generated toy_kjur 7).ecpubhex restore_address p.storage

pub normal_whole : HasNormal the_page
normal_whole = (create_non_restore_wallet-IsKept toy toy_kjur a_draw 7 pw blank refl).1

pub restore_whole : HasRestore the_restored
restore_whole =
    (create_restore_wallet-IsKept toy toy-CodecLaws toy-CipherLaws toy_kjur a_draw 7 pw (a_draw 1 8)
      blank refl puk-IsUnsalted the_keys.ecpubhex-IsHex).1

pub prk_is_hex : IsHex (generated toy_kjur 7).ecprvhex
unfolding do_generate
prk_is_hex = the_keys.ecprvhex-IsHex
