-- ===== src/Wallet/Reachable.antt =====
-- What holds of every reachable page: each of its two wallets is absent or whole, and a wallet that is
-- whole can be used after any calls.
use moa_crypto.Common.{ℕ, ◌≡◌, refl, ◌∙◌, some, none, inl, inr, ◌⊎◌, [], ◌∷◌, Option}
use moa_crypto.Text.{Text, split, index_of}
use moa_crypto.Browser.{Page, Storage, write}
use moa_crypto.CryptoModule.{CryptoModule, CipherParams}
use moa_crypto.Kjur.{Kjur}
use moa_crypto.Wallet.{salt_size, type_normal, type_restore, wallet_type, get_wallet_properties}
use moa_crypto.Wallet.Create.{create_non_restore_wallet}
use moa_crypto.Wallet.Cipher.{encrypt_pbe_data, decrypt_aes_data}
use moa_crypto.Wallet.Mac.{generate_addr}
use moa_crypto.Wallet.Restore.{create_restore_wallet, restore_from}
use moa_crypto.Wallet.Guards.{set_type_lem, generate_transaction_sign-storage}
use moa_crypto.Wallet.KeyRecovery.{kept_text}
use moa_crypto.Wallet.Integrity.{IsKept, seal-IsKept}
use moa_crypto.Wallet.Lifecycle.{generated, enc_prk, create_non_restore_wallet-IsKept}
use moa_crypto.Wallet.Coexist.{
  Agrees, IsKept-of, create_restore_wallet-Agrees, create_non_restore_wallet-Agrees, restore_of,
}
use moa_crypto.Wallet.Steps.{
  Kind, normal, restore, type_of, names_of, Step, create, recreate, sign, choose, read_public_key,
  read_address, Reach, here, later, write_type-Agrees, get_wallet_properties-type_of,
  get_public_key-page, get_wallet_addr-page, Step-Agrees,
}

module _ (c : CryptoModule) where
  open c use {WordArray}

  -- The entries of a whole wallet, whatever type is chosen at the moment.
  pub record Whole (kind : Kind) (s : Storage) : Type 0 where
    pub password : Text
    pub salt : WordArray
    pub target : CipherParams WordArray
    pub puk : Text
    pub address : Text
    pub kept :
        IsKept c
          (names_of kind)
          (type_of kind)
          password
          salt
          (kept_text c target)
          puk
          address
          (write s wallet_type (type_of kind))

  abbrev pub IsSound : Kind → Storage → Type 0
  IsSound kind s = (s (names_of kind).version ≡ none) ⊎ Whole kind s

  pub version_kept :
      (kind : Kind) {s : Storage}
      → (w : Whole kind s) → (text : Text) × (s (names_of kind).version ≡ some text)
  version_kept normal w = (_, w.kept.version_kept)
  version_kept restore w = (_, w.kept.version_kept)

  -- A wallet that is whole stays so where its entries are the same.
  pub IsKept-along :
      (kind : Kind) (password : Text) (salt : WordArray) (target puk address : Text) (s t : Storage)
      → Agrees (names_of kind) s t
      → IsKept c
          (names_of kind)
          (type_of kind)
          password
          salt
          target
          puk
          address
          (write s wallet_type (type_of kind))
      → IsKept c
          (names_of kind)
          (type_of kind)
          password
          salt
          target
          puk
          address
          (write t wallet_type (type_of kind))
  IsKept-along normal password salt target puk address s t agrees kept =
      IsKept-of c (names_of normal) type_normal password salt target puk address
        (write s wallet_type type_normal) (write t wallet_type type_normal) refl kept agrees
  IsKept-along restore password salt target puk address s t agrees kept =
      IsKept-of c (names_of restore) (type_of restore) password salt target puk address
        (write s wallet_type (type_of restore)) (write t wallet_type (type_of restore)) refl kept
        agrees

  IsSound-along :
      (kind : Kind) (s t : Storage) → Agrees (names_of kind) s t → IsSound kind s → IsSound kind t
  IsSound-along kind s t agrees (inl free) = inl (agrees.0 ∙ free)
  IsSound-along kind s t agrees (inr w) = inr (record {
    password = w.password;
    salt = w.salt;
    target = w.target;
    puk = w.puk;
    address = w.address;
    kept =
        IsKept-along kind w.password w.salt (kept_text c w.target) w.puk w.address s t agrees
          w.kept;
  })

  -- The entries of a wallet that is whole under the chosen type are so whatever type is chosen.
  pub IsKept-of_chosen :
      (kind : Kind) (password : Text) (salt : WordArray) (target puk address : Text) (s : Storage)
      → IsKept c
          (get_wallet_properties (type_of kind))
          (type_of kind)
          password
          salt
          target
          puk
          address
          s
      → IsKept c
          (names_of kind)
          (type_of kind)
          password
          salt
          target
          puk
          address
          (write s wallet_type (type_of kind))
  IsKept-of_chosen kind password salt target puk address s kept =
      IsKept-of c (names_of kind) (type_of kind) password salt target puk address s
        (write s wallet_type (type_of kind)) refl (rw get_wallet_properties-type_of at kept)
        (write_type-Agrees kind s (type_of kind))

  create-IsSound :
      (k : Kjur) (draw : ℕ → ℕ → WordArray) (seed : ℕ) (password : Text) (p : Page)
      → p.storage (names_of normal).version ≡ none
      → IsSound normal (create_non_restore_wallet c k draw seed password p).1.storage
  create-IsSound k draw seed password p free = inr (record {
    password = password;
    salt = draw 0 salt_size;
    target = enc_prk c k draw seed password p;
    puk = (generated k seed).ecpubhex;
    address = c.hex_stringify (generate_addr c (c.utf8_parse (generated k seed).ecpubhex));
    kept =
        IsKept-of_chosen normal password (draw 0 salt_size) _ _ _ _
          (create_non_restore_wallet-IsKept c k draw seed password p free).1;
  })

  abbrev restored_target : (drawn : WordArray) (password prk_text : Text) → CipherParams WordArray
  restored_target drawn password prk_text =
      encrypt_pbe_data c drawn (c.hex_parse (c.hex_stringify (c.base64_parse prk_text))) password

  restore_from-IsSound :
      (drawn : WordArray) (password prk_text enc_puk enc_salt : Text) (p : Page)
      → p.storage (names_of restore).version ≡ none
      → IsSound restore (restore_from c drawn password prk_text enc_puk enc_salt p).1.storage
  unfolding restore_from get_wallet_properties index_of
  restore_from-IsSound drawn password prk_text enc_puk enc_salt p free = inr (record {
    password = password;
    salt = c.base64_parse enc_salt;
    target = restored_target drawn password prk_text;
    puk = c.hex_stringify (decrypt_aes_data c enc_puk password (c.base64_parse enc_salt));
    address =
        c.hex_stringify
          (generate_addr c (decrypt_aes_data c enc_puk password (c.base64_parse enc_salt)));
    kept =
        IsKept-of_chosen restore password (c.base64_parse enc_salt) _ _ _ _
          (seal-IsKept c type_restore password (c.base64_parse enc_salt)
            (restored_target drawn password prk_text) _ _ _ p refl refl free).1;
  })

  recreate-IsSound :
      (drawn : WordArray) (password : Text) (data_ : Option Text) (p : Page)
      → p.storage (names_of restore).version ≡ none
      → IsSound restore (create_restore_wallet c drawn password data_ p).1.storage
  unfolding create_restore_wallet
  recreate-IsSound drawn password none p free = inl free
  recreate-IsSound drawn password (some msg) p free =
      elim (split b'$' msg)
        as (λ parts. IsSound restore (restore_of c drawn password parts p).1.storage) [
          | [] ↦ inl free
          | a ∷ [] ↦ inl free
          | a ∷ b ∷ [] ↦ inl free
          | a ∷ b ∷ salt ∷ rest ↦ restore_from-IsSound drawn password a b salt p free
        ]

  module _ (k : Kjur) where
    -- A call on a page that has no wallet of the kind makes a whole one or none.
    Step-on_free :
        (kind : Kind) {p q : Page}
        → p.storage (names_of kind).version ≡ none
        → Step c k p q
        → IsSound kind q.storage
    Step-on_free normal {p} free (create draw seed password) =
        create-IsSound k draw seed password p free
    Step-on_free restore {p} free (create draw seed password) =
        IsSound-along restore p.storage _
          (create_non_restore_wallet-Agrees c k draw seed password p) (inl free)
    Step-on_free normal {p} free (recreate drawn password data_) =
        IsSound-along normal p.storage _ (create_restore_wallet-Agrees c drawn password data_ p)
          (inl free)
    Step-on_free restore {p} free (recreate drawn password data_) =
        recreate-IsSound drawn password data_ p free
    Step-on_free kind {p} free (sign transaction password nonce) =
        inl (rw (generate_transaction_sign-storage c k transaction password nonce p) free)
    Step-on_free kind {p} free (choose type) =
        rw (set_type_lem type p)
          (IsSound-along kind p.storage _ (write_type-Agrees kind p.storage type) (inl free))
    Step-on_free kind {p} free read_public_key = inl (rw (get_public_key-page p) free)
    Step-on_free kind {p} free read_address = inl (rw (get_wallet_addr-page p) free)

    Step-IsSound :
        (kind : Kind) {p q : Page} → IsSound kind p.storage → Step c k p q → IsSound kind q.storage
    Step-IsSound kind (inl free) step = Step-on_free kind free step
    Step-IsSound kind {p} {q} (inr whole) step =
        IsSound-along kind p.storage q.storage
          (Step-Agrees c k kind (version_kept kind whole).1 step) (inr whole)

    -- From a page with no wallet, every page that the calls reach has each of the two wallets
    -- whole or not at all.
    pub Reach-IsSound :
        {p q : Page}
        → p.storage (names_of normal).version ≡ none
        → p.storage (names_of restore).version ≡ none
        → Reach c k p q
        → (kind : Kind) → IsSound kind q.storage
    Reach-IsSound free free_restore here normal = inl free
    Reach-IsSound free free_restore here restore = inl free_restore
    Reach-IsSound free free_restore (later before step) kind =
        Step-IsSound kind (Reach-IsSound free free_restore before kind) step
