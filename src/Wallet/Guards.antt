-- ===== src/Wallet/Guards.antt =====
-- What the guards keep: no wallet is overwritten, and nothing is signed past a MAC that does not
-- match.
use moa_crypto.Common.{
  ◌≡◌, refl, sym, ◌∙◌, ap, Bool, true, false, some, none, Option, Option-cases, inl, inr, ◌⊎◌,
  arith, ◌++◌, ◌∷◌, [], ℕ,
}
use moa_crypto.Text.{Text}
use moa_crypto.Text.Laws.{index_of-nil}
use moa_crypto.Browser.{Page, Result, ok, type_error, write}
use moa_crypto.CryptoModule.{CryptoModule}
use moa_crypto.Kjur.{Kjur}
use moa_crypto.Wallet.{is_restore, wallet_type}
use moa_crypto.Wallet.Mac.{verify_mac, mismatch_message}
use moa_crypto.Wallet.Sign.{sign_with, sign_if, generate_transaction_sign, set_type}

-- Whatever the text, setType stores it: its test never stops it.
pub set_type_lem :
    (type : Text) (p : Page)
    → set_type type p ≡ (ok tt, record p { storage = write p.storage wallet_type type })
unfolding set_type
set_type_lem type p = rw (index_of-nil type)

module _ (c : CryptoModule) where
  open c use {WordArray}

  -- The storage that a script leaves, at each key, when the key is none of those given.
  verify_mac-storage :
      (type password : Text) (p : Page) → (verify_mac c type password p).1.storage ≡ p.storage
  unfolding verify_mac
  verify_mac-storage type password p = ground arith

  sign_with-storage :
      (k : Kjur) (ciphered_key salt_key transaction password : Text) (nonce : ℕ) (p : Page)
      → (sign_with c k ciphered_key salt_key transaction password nonce p).1 ≡ p
  unfolding sign_with
  sign_with-storage k ciphered_key salt_key transaction password nonce p = ground arith

  verify_mac_cases :
      (type password : Text) (p : Page)
      → (verify_mac c type password p ≡ (ok true, p))
        ⊎ (verify_mac c type password p
            ≡ (ok false, record p { alerts = p.alerts ++ mismatch_message ∷ [] }))
        ⊎ (verify_mac c type password p ≡ (type_error, p))
  unfolding verify_mac
  verify_mac_cases type password p = ground arith

  sign_if-page :
      (k : Kjur) (intact restore : Bool) (transaction password : Text) (nonce : ℕ) (p : Page)
      → (sign_if c k intact restore transaction password nonce p).1 ≡ p
  unfolding sign_if
  sign_if-page k true true transaction password nonce p =
      sign_with-storage k _ _ transaction password nonce p
  sign_if-page k true false transaction password nonce p =
      sign_with-storage k _ _ transaction password nonce p
  sign_if-page k false restore transaction password nonce p = refl

  sign_if-false :
      (k : Kjur) (restore : Bool) (transaction password : Text) (nonce : ℕ) (p : Page)
      → sign_if c k false restore transaction password nonce p ≡ (ok none, p)
  unfolding sign_if
  sign_if-false k restore transaction password nonce p = refl

  -- Where generateTransactionSign returns a signature, a type is kept, the MAC of that type's
  -- wallet matched, and the page is as it was.
  pub signs_only_intact :
      (k : Kjur) (transaction password : Text) (nonce : ℕ) (p p' : Page) (signature : Text)
      → generate_transaction_sign c k transaction password nonce p ≡ (ok (some signature), p')
      → (type : Text) × (p.storage wallet_type ≡ some type)
        × (verify_mac c type password p ≡ (ok true, p))
        × (p' ≡ p)
  unfolding generate_transaction_sign
  signs_only_intact k transaction password nonce p p' signature h =
      elim (Option-cases (p.storage wallet_type)) [
        | inl missing ↦ absurd (ground arith)
        | inr (type, kept) ↦ elim (verify_mac_cases type password p) [
          | inl intact ↦
              let signed = rw (kept, intact) at h in
              (
                type,
                kept,
                intact,
                sym (ap (λ (r : Result (Option Text) × Page). r.1) signed)
                    ∙ sign_if-page k true (is_restore type) transaction password nonce p,
              )
          | inr (inl mismatch) ↦
              let refused = rw (kept, mismatch, sign_if-false) at h in absurd (cc refused)
          | inr (inr broken) ↦ absurd (ground arith)
        ]
      ]

  -- On every branch, the error of a missing entry and the alert of a MAC that does not match
  -- included, signing leaves localStorage as it was.
  pub generate_transaction_sign-storage :
      (k : Kjur) (transaction password : Text) (nonce : ℕ) (p : Page)
      → (generate_transaction_sign c k transaction password nonce p).1.storage ≡ p.storage
  unfolding generate_transaction_sign
  generate_transaction_sign-storage k transaction password nonce p =
      elim (Option-cases (p.storage wallet_type)) [
        | inl missing ↦ rw missing refl
        | inr (type, kept) ↦ elim (verify_mac_cases type password p) [
          | inl intact ↦ rw (kept, intact, sign_if-page) refl
          | inr (inl mismatch) ↦ rw (kept, mismatch, sign_if-page) refl
          | inr (inr broken) ↦ rw (kept, broken) refl
        ]
      ]

  -- Where a type is kept and the MAC of that type's wallet does not match its entries, there is
  -- no signature, one alert is shown, and nothing is written.
  pub generate_transaction_sign-mismatch :
      (k : Kjur) (transaction password type : Text) (nonce : ℕ) (p : Page)
      → p.storage wallet_type ≡ some type
      → (verify_mac c type password p).0 ≡ ok false
      → generate_transaction_sign c k transaction password nonce p
        ≡ (ok none, record p { alerts = p.alerts ++ mismatch_message ∷ [] })
  unfolding generate_transaction_sign
  generate_transaction_sign-mismatch k transaction password type nonce p kept wrong =
      elim (verify_mac_cases type password p) [
        | inl intact ↦ absurd (cc)
        | inr (inl mismatch) ↦ rw (kept, mismatch, sign_if-false) refl
        | inr (inr broken) ↦ absurd (cc)
      ]
