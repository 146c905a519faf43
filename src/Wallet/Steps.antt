-- ===== src/Wallet/Steps.antt =====
-- The page of a wallet as a state machine: each call of the wallet's interface that touches the page
-- is a step, and a page is reachable from another by any calls with any arguments.
use moa_crypto.Common.{ℕ, ◌≡◌, refl, ◌∙◌, some, none, Option, arith, [], ◌∷◌}
use moa_crypto.Text.{Text, codes, split, index_of}
use moa_crypto.Browser.{Page, Storage, ok, write}
use moa_crypto.CryptoModule.{CryptoModule, CipherParams}
use moa_crypto.Kjur.{Kjur}
use moa_crypto.Wallet.{
  Properties, names_with, type_normal, type_restore, wallet_type, get_wallet_properties,
}
use moa_crypto.Wallet.Values.{Value, cipher, call_to_string}
use moa_crypto.Wallet.Create.{seal, create_non_restore_wallet}
use moa_crypto.Wallet.Restore.{create_restore_wallet, restore_from}
use moa_crypto.Wallet.Sign.{set_type, get_public_key, get_wallet_addr, generate_transaction_sign}
use moa_crypto.Wallet.Guards.{set_type_lem, generate_transaction_sign-storage}
use moa_crypto.Wallet.Coexist.{
  Agrees, Agrees-refl, create_restore_wallet-Agrees, create_non_restore_wallet-Agrees, restore_of,
}

-- The two wallets that a page has room for.
pub data Kind : Type 0 where
  normal : Kind
  restore : Kind

abbrev pub type_of : Kind → Text
type_of normal = type_normal
type_of restore = type_restore

abbrev pub names_of : Kind → Properties
names_of normal = names_with (codes "")
names_of restore = names_with (codes "R.")

module _ (c : CryptoModule) (k : Kjur) where
  open c use {WordArray}

  -- One call, on the page that it is given and the page that it leaves, whatever it returns.
  pub data Step (p : Page) : Page → Type 0 where
    create :
        (draw : ℕ → ℕ → WordArray) (seed : ℕ) (password : Text)
        → Step p (create_non_restore_wallet c k draw seed password p).1
    recreate :
        (drawn : WordArray) (password : Text) (data_ : Option Text)
        → Step p (create_restore_wallet c drawn password data_ p).1
    sign :
        (transaction password : Text) (nonce : ℕ)
        → Step p (generate_transaction_sign c k transaction password nonce p).1
    choose : (type : Text) → Step p (set_type type p).1
    read_public_key : Step p (get_public_key p).1
    read_address : Step p (get_wallet_addr p).1

  pub data Reach (p : Page) : Page → Type 0 where
    here : Reach p p
    later : {q r : Page} → Reach p q → Step q r → Reach p r

pub get_public_key-page : (p : Page) → (get_public_key p).1 ≡ p
unfolding get_public_key
get_public_key-page p = ground arith

pub get_wallet_addr-page : (p : Page) → (get_wallet_addr p).1 ≡ p
unfolding get_wallet_addr
get_wallet_addr-page p = ground arith

-- Choosing a type writes one entry, which is none of a wallet's.
pub write_type-Agrees :
    (kind : Kind) (s : Storage) (type : Text) → Agrees (names_of kind) s (write s wallet_type type)
write_type-Agrees normal s type = Agrees-refl (names_of normal) s
write_type-Agrees restore s type = Agrees-refl (names_of restore) s

Agrees-eq : (names : Properties) (s t : Storage) → t ≡ s → Agrees names s t
Agrees-eq names s t e = rw e (Agrees-refl names s)

pub Agrees-trans :
    (names : Properties) (s t u : Storage) → Agrees names s t → Agrees names t u → Agrees names s u
Agrees-trans names s t u (a0, a1, a2, a3, a4, a5, a6, a7) (b0, b1, b2, b3, b4, b5, b6, b7) =
    (b0 ∙ a0, b1 ∙ a1, b2 ∙ a2, b3 ∙ a3, b4 ∙ a4, b5 ∙ a5, b6 ∙ a6, b7 ∙ a7)

pub get_wallet_properties-type_of :
    (kind : Kind) → get_wallet_properties (type_of kind) ≡ names_of kind
unfolding get_wallet_properties index_of
get_wallet_properties-type_of normal = refl
get_wallet_properties-type_of restore = refl

module _ (c : CryptoModule) where
  open c use {WordArray}

  -- Where a wallet of the kind is kept, sealing another writes nothing.
  seal-kept :
      (kind : Kind) (password : Text) (salt : WordArray) (target : CipherParams WordArray)
      (puk : Value WordArray) (puk_text : Text) (address : WordArray) (p : Page) {version : Text}
      → call_to_string c puk ≡ ok puk_text
      → p.storage (names_of kind).version ≡ some version
      → (seal c (type_of kind) password salt (cipher target) puk address p).1.storage ≡ p.storage
  unfolding seal
  seal-kept kind password salt target puk puk_text address p called kept =
      rw (called, get_wallet_properties-type_of kind, kept) refl

  create-kept :
      (k : Kjur) (draw : ℕ → ℕ → WordArray) (seed : ℕ) (password : Text) (p : Page) {version : Text}
      → p.storage (names_of normal).version ≡ some version
      → (create_non_restore_wallet c k draw seed password p).1.storage ≡ p.storage
  unfolding create_non_restore_wallet
  create-kept k draw seed password p kept = seal-kept normal password _ _ _ _ _ p refl kept

  restore_from-kept :
      (drawn : WordArray) (password enc_prk enc_puk enc_salt : Text) (p : Page) {version : Text}
      → p.storage (names_of restore).version ≡ some version
      → (restore_from c drawn password enc_prk enc_puk enc_salt p).1.storage ≡ p.storage
  unfolding restore_from
  restore_from-kept drawn password enc_prk enc_puk enc_salt p kept =
      seal-kept restore password _ _ _ _ _ p refl kept

  recreate-kept :
      (drawn : WordArray) (password : Text) (data_ : Option Text) (p : Page) {version : Text}
      → p.storage (names_of restore).version ≡ some version
      → (create_restore_wallet c drawn password data_ p).1.storage ≡ p.storage
  unfolding create_restore_wallet
  recreate-kept drawn password none p kept = refl
  recreate-kept drawn password (some msg) p kept =
      elim (split b'$' msg)
        as (λ parts. (restore_of c drawn password parts p).1.storage ≡ p.storage) [
          | [] ↦ refl
          | a ∷ [] ↦ refl
          | a ∷ b ∷ [] ↦ refl
          | a ∷ b ∷ salt ∷ rest ↦ restore_from-kept drawn password a b salt p kept
        ]

  module _ (k : Kjur) where
    -- No call changes an entry of a wallet that is kept.
    pub Step-Agrees :
        (kind : Kind) {p q : Page} {version : Text}
        → p.storage (names_of kind).version ≡ some version
        → Step c k p q
        → Agrees (names_of kind) p.storage q.storage
    Step-Agrees normal {p} kept (create draw seed password) =
        Agrees-eq (names_of normal) p.storage _ (create-kept k draw seed password p kept)
    Step-Agrees restore {p} kept (create draw seed password) =
        create_non_restore_wallet-Agrees c k draw seed password p
    Step-Agrees normal {p} kept (recreate drawn password data_) =
        create_restore_wallet-Agrees c drawn password data_ p
    Step-Agrees restore {p} kept (recreate drawn password data_) =
        Agrees-eq (names_of restore) p.storage _ (recreate-kept drawn password data_ p kept)
    Step-Agrees kind {p} kept (sign transaction password nonce) =
        Agrees-eq (names_of kind) p.storage _
          (generate_transaction_sign-storage c k transaction password nonce p)
    Step-Agrees kind {p} kept (choose type) =
        rw (set_type_lem type p) (write_type-Agrees kind p.storage type)
    Step-Agrees kind {p} kept read_public_key =
        rw (get_public_key-page p) (Agrees-refl (names_of kind) p.storage)
    Step-Agrees kind {p} kept read_address =
        rw (get_wallet_addr-page p) (Agrees-refl (names_of kind) p.storage)

    -- Nor do any number of calls.
    pub Reach-Agrees :
        (kind : Kind) {p q : Page} {version : Text}
        → p.storage (names_of kind).version ≡ some version
        → Reach c k p q
        → Agrees (names_of kind) p.storage q.storage
    Reach-Agrees kind {p} kept here = Agrees-refl (names_of kind) p.storage
    Reach-Agrees kind {p} kept (later {q} {r} before step) =
        let agrees = Reach-Agrees kind kept before in
        Agrees-trans (names_of kind) p.storage q.storage r.storage agrees
          (Step-Agrees kind (agrees.0 ∙ kept) step)
