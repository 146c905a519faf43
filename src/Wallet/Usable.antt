-- ===== src/Wallet/Usable.antt =====
-- A wallet, once made, can be used after any calls: it is never lost or overwritten.
use moa_crypto.Common.{ℕ, ◌≡◌, ap, ◌∙◌, sym, some, none, true, inl, inr, ◌⊎◌}
use mathlib.Core.Path.{subst}
use moa_crypto.Text.{Text, codes}
use moa_crypto.Browser.{Page, Result, ok, write}
use moa_crypto.CryptoModule.{CryptoModule, CodecLaws, CipherLaws}
use moa_crypto.Kjur.{Kjur, KeyPairLaws, do_sign}
use moa_crypto.Wallet.{options, salt_size, type_normal, wallet_type, get_wallet_properties}
use moa_crypto.Wallet.Mac.{generate_addr}
use moa_crypto.Wallet.Sign.{
  set_type, get_public_key, generate_transaction_sign, verify_transaction_sign,
}
use moa_crypto.Wallet.Guards.{set_type_lem}
use moa_crypto.Wallet.KeyRecovery.{IsUnsalted, kept_text, hex-decrypt_prk}
use moa_crypto.Wallet.Integrity.{IsKept}
use moa_crypto.Wallet.Signing.{generate_transaction_sign_lem, get_public_key_lem}
use moa_crypto.Wallet.Lifecycle.{generated, created, enc_prk, create_non_restore_wallet-IsKept}
use moa_crypto.Wallet.Steps.{
  Kind, normal, restore, type_of, names_of, Reach, get_wallet_properties-type_of, Reach-Agrees,
}
use moa_crypto.Wallet.Reachable.{Whole, Reach-IsSound, IsKept-along, IsKept-of_chosen}

-- The page once a type is chosen.
abbrev pub chosen : Kind → Page → Page
chosen kind q = (set_type (type_of kind) q).1

module _ (c : CryptoModule) where
  open c use {WordArray}

  IsKept-chosen :
      (kind : Kind) (password : Text) (salt : WordArray) (target puk address : Text) (q : Page)
      → IsKept c
          (names_of kind)
          (type_of kind)
          password
          salt
          target
          puk
          address
          (write q.storage wallet_type (type_of kind))
      → IsKept c
          (get_wallet_properties (type_of kind))
          (type_of kind)
          password
          salt
          target
          puk
          address
          (chosen kind q).storage
  IsKept-chosen kind password salt target puk address q kept =
      rw (get_wallet_properties-type_of kind) (
        subst (IsKept c (names_of kind) (type_of kind) password salt target puk address)
          (sym (ap (λ (r : Result (Unit {0}) × Page). r.1.storage) (set_type_lem (type_of kind) q)))
          kept)

  module _ (codec : CodecLaws c) (k : Kjur) where
    -- Signing on q under the password gives a signature, for every transaction and nonce.
    abbrev pub Signs : Kind → Text → Page → Type 0
    Signs kind password q =
        (transaction : Text) (nonce : ℕ)
        → (signature : Text) × (generate_transaction_sign c k transaction password nonce
              (chosen kind q)
            ≡ (ok (some signature), chosen kind q))

    Whole-Signs : (kind : Kind) (q : Page) (w : Whole c kind q.storage) → Signs kind w.password q
    Whole-Signs kind q w transaction nonce = (
      _,
      generate_transaction_sign_lem c codec w.target (chosen kind q)
          (IsKept-chosen kind w.password w.salt (kept_text c w.target) w.puk w.address q w.kept) k
          transaction nonce,
    )

    -- On every page that any calls reach from a page with no wallet, and for each of the two
    -- types: no wallet of the type is kept, or there is a password under which the page signs
    -- every transaction once the type is chosen, under the laws of the encoders.
    pub reachable-Signs :
        {p q : Page}
        → p.storage (names_of normal).version ≡ none
        → p.storage (names_of restore).version ≡ none
        → Reach c k p q
        → (kind : Kind)
        → (q.storage (names_of kind).version ≡ none) ⊎ ((password : Text) × Signs kind password q)
    reachable-Signs {q} free free_restore reach kind =
        elim (Reach-IsSound c k free free_restore reach kind) [
          | inl absent ↦ inl absent
          | inr whole ↦ inr (whole.password, Whole-Signs kind q whole)
        ]

    module _ (draw : ℕ → ℕ → WordArray) (seed : ℕ) (password : Text) (p q : Page)
        (free : p.storage (codes "Version.Info") ≡ none)
        (reach : Reach c k (created c k draw seed password p) q) where
      endures-IsKept :
          IsKept c
            (get_wallet_properties type_normal)
            type_normal
            password
            (draw 0 salt_size)
            (kept_text c (enc_prk c k draw seed password p))
            (generated k seed).ecpubhex
            (c.hex_stringify (generate_addr c (c.utf8_parse (generated k seed).ecpubhex)))
            (chosen normal q).storage
      endures-IsKept =
          let kept =
            IsKept-of_chosen c normal password (draw 0 salt_size)
              (kept_text c (enc_prk c k draw seed password p)) (generated k seed).ecpubhex _ _
              (create_non_restore_wallet-IsKept c k draw seed password p free).1 in
          IsKept-chosen normal password (draw 0 salt_size) _ _ _ q (
            IsKept-along c normal password (draw 0 salt_size) _ _ _
              (created c k draw seed password p).storage q.storage
              (Reach-Agrees c k normal kept.version_kept reach) kept)

      module _ (ciphers : CipherLaws c)
          (keys : KeyPairLaws k options.ecc_curve options.signature_alg seed)
          (unsalted : IsUnsalted c (generated k seed).ecprvhex password (draw 0 salt_size))
          (transaction : Text) (nonce : ℕ) where
        abbrev signature : Text
        signature =
            do_sign k options.ecc_curve options.signature_alg transaction
              (generated k seed).ecprvhex nonce

        -- A normal wallet that is made on a page that has none is never lost: after any calls
        -- with any arguments, choosing the normal type lets the page sign every transaction with
        -- the generated private key and hand out the generated public key, under which the
        -- signature verifies. The laws of the encoders and ciphers are assumed; the generated key
        -- pair is taken to be hexadecimal and its signatures to verify; and the AES ciphertext of
        -- the private key does not begin with "Salted__".
        pub created_endures :
            (generate_transaction_sign c k transaction password nonce (chosen normal q)
              ≡ (ok (some signature), chosen normal q))
            × (get_public_key (chosen normal q)
                ≡ (ok (some (generated k seed).ecpubhex), chosen normal q))
            × (verify_transaction_sign k transaction signature (generated k seed).ecpubhex ≡ true)
        unfolding verify_transaction_sign
        created_endures = (
          generate_transaction_sign_lem c codec (enc_prk c k draw seed password p) (chosen normal q)
                endures-IsKept k transaction nonce
              ∙ ap
                  (λ d. (
                    ok (
                        some
                          (do_sign k options.ecc_curve options.signature_alg transaction d nonce)),
                    chosen normal q,
                  ))
                  (hex-decrypt_prk c codec ciphers (draw 1 8) _ password _ keys.ecprvhex-IsHex
                    unsalted),
          get_public_key_lem c codec (chosen normal q) endures-IsKept,
          keys.verify-sign transaction nonce,
        )
