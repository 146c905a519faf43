-- ===== src/Wallet/Tests/Calls.antt =====
-- A page on which a wallet is made, and then called in many ways: with garbage, with the data of
-- another wallet, with another password, and with a text that is no type.
use moa_crypto.Common.{◌≡◌, refl, none, some, true, ◌⊎◌}
use moa_crypto.Text.{Text, codes}
use moa_crypto.Browser.{Page, ok, blank}
use moa_crypto.CryptoModule.Toy.{toy, toy-CodecLaws, toy-CipherLaws}
use moa_crypto.Kjur.Toy.{toy_kjur}
use moa_crypto.Wallet.Create.{create_non_restore_wallet}
use moa_crypto.Wallet.Restore.{create_restore_wallet}
use moa_crypto.Wallet.Sign.{
  get_public_key, generate_transaction_sign, verify_transaction_sign, set_type,
}
use moa_crypto.Wallet.Lifecycle.{generated}
use moa_crypto.Wallet.Steps.{normal, names_of, Reach, here, later, create, recreate, choose}
use moa_crypto.Wallet.Usable.{chosen, Signs, reachable-Signs, created_endures}
use moa_crypto.Wallet.Tests.{
  the_keys, a_draw, prk-IsUnsalted, pw, the_data, the_page, the_signature,
}

-- The page after a failed and a successful restoration, a second creation and a wrong type.
abbrev garbled : Page
garbled = (create_restore_wallet toy (a_draw 2 8) (codes "other") (some (codes "a1$")) the_page).1

abbrev both : Page
both = (create_restore_wallet toy (a_draw 2 8) (codes "other") (some the_data) garbled).1

abbrev again : Page
again = (create_non_restore_wallet toy toy_kjur a_draw 9 (codes "third") both).1

abbrev untyped : Page
untyped = (set_type (codes "neither") again).1

after : Reach toy toy_kjur the_page untyped
after =
    later
      (later
        (later (later here (recreate (a_draw 2 8) (codes "other") (some (codes "a1$"))))
          (recreate (a_draw 2 8) (codes "other") (some the_data)))
        (create a_draw 9 (codes "third")))
      (choose (codes "neither"))

created_endures_example :
    (generate_transaction_sign toy toy_kjur (codes "tx") pw 3 (chosen normal untyped)
      ≡ (ok (some the_signature), chosen normal untyped))
    × (get_public_key (chosen normal untyped)
        ≡ (ok (some (generated toy_kjur 7).ecpubhex), chosen normal untyped))
    × (verify_transaction_sign toy_kjur (codes "tx") the_signature (generated toy_kjur 7).ecpubhex
        ≡ true)
created_endures_example =
    created_endures toy toy-CodecLaws toy_kjur a_draw 7 pw blank untyped refl after toy-CipherLaws
      the_keys prk-IsUnsalted (codes "tx") 3

reachable-Signs_example :
    (the_page.storage (names_of normal).version ≡ none)
    ⊎ ((password : Text) × Signs toy toy-CodecLaws toy_kjur normal password the_page)
reachable-Signs_example =
    reachable-Signs toy toy-CodecLaws toy_kjur {p = blank} {q = the_page} refl refl
      (later here (create a_draw 7 pw)) normal
