-- ===== src/Wallet/Coexist.antt =====
-- A page holds one wallet of each kind: making the one leaves the other's entries as they were.
use moa_crypto.Common.{
  ◌≡◌, refl, none, some, Option, Option-cases, inl, inr, ℕ, [], ◌∷◌, ◌∙◌, List, get_elem?,
}
use moa_crypto.Text.{Text, codes, split, index_of}
use moa_crypto.Browser.{Page, Storage, Script, write, lift, member, ◌>>=◌}
use moa_crypto.CryptoModule.{CryptoModule, CipherParams}
use moa_crypto.Kjur.{Kjur}
use moa_crypto.Wallet.{
  Properties, names_with, type_normal, type_restore, wallet_type, get_wallet_properties,
}
use moa_crypto.Wallet.Values.{words, text, cipher}
use moa_crypto.Wallet.Create.{seal, create_non_restore_wallet}
use moa_crypto.Wallet.Restore.{create_restore_wallet, restore_from}
use moa_crypto.Wallet.Sign.{set_type}
use moa_crypto.Wallet.Integrity.{IsKept}
use moa_crypto.Wallet.Guards.{set_type_lem}

-- Two storages agree on the eight entries of a wallet.
abbrev pub Agrees : Properties → Storage → Storage → Type 0
Agrees names s t =
    (t names.version ≡ s names.version)
    × (t names.os ≡ s names.os)
    × (t names.salt ≡ s names.salt)
    × (t names.iteration_cnt ≡ s names.iteration_cnt)
    × (t names.ciphered_data ≡ s names.ciphered_data)
    × (t names.wallet_puk ≡ s names.wallet_puk)
    × (t names.wallet_addr ≡ s names.wallet_addr)
    × (t names.mac_data ≡ s names.mac_data)

pub Agrees-refl : (names : Properties) (s : Storage) → Agrees names s s
Agrees-refl names s = (refl, refl, refl, refl, refl, refl, refl, refl)

module _ (c : CryptoModule) where
  open c use {WordArray}

  seal-restore :
      (password : Text) (salt : WordArray) (target : CipherParams WordArray) (puk : WordArray)
      (address : WordArray) (p : Page)
      → Agrees
          (names_with (codes ""))
          p.storage
          (seal c type_restore password salt (cipher target) (words puk) address p).1.storage
  unfolding seal get_wallet_properties index_of
  seal-restore password salt target puk address p =
      elim (Option-cases (p.storage (codes "R.Version.Info"))) [
        | inl free ↦ rw free (Agrees-refl (names_with (codes "")) p.storage)
        | inr (version, kept) ↦ rw kept (Agrees-refl (names_with (codes "")) p.storage)
      ]

  seal-normal :
      (password : Text) (salt : WordArray) (target : CipherParams WordArray) (puk : Text)
      (address : WordArray) (p : Page)
      → Agrees
          (names_with (codes "R."))
          p.storage
          (seal c type_normal password salt (cipher target) (text puk) address p).1.storage
  unfolding seal get_wallet_properties index_of
  seal-normal password salt target puk address p =
      elim (Option-cases (p.storage (codes "Version.Info"))) [
        | inl free ↦ rw free (Agrees-refl (names_with (codes "R.")) p.storage)
        | inr (version, kept) ↦ rw kept (Agrees-refl (names_with (codes "R.")) p.storage)
      ]

  restore_from-Agrees :
      (drawn : WordArray) (password enc_prk enc_puk enc_salt : Text) (p : Page)
      → Agrees
          (names_with (codes ""))
          p.storage
          (restore_from c drawn password enc_prk enc_puk enc_salt p).1.storage
  unfolding restore_from
  restore_from-Agrees drawn password enc_prk enc_puk enc_salt p = seal-restore password _ _ _ _ p

  -- What follows the split of the restore data.
  abbrev pub restore_of : WordArray → Text → List Text → Script (Unit {0})
  restore_of drawn password parts = do
    enc_prk ← lift (member (get_elem? parts 0))
    enc_puk ← lift (member (get_elem? parts 1))
    enc_salt ← lift (member (get_elem? parts 2))
    restore_from c drawn password enc_prk enc_puk enc_salt

  pub create_restore_wallet-Agrees :
      (drawn : WordArray) (password : Text) (data_ : Option Text) (p : Page)
      → Agrees
          (names_with (codes ""))
          p.storage
          (create_restore_wallet c drawn password data_ p).1.storage
  unfolding create_restore_wallet
  create_restore_wallet-Agrees drawn password none p = Agrees-refl (names_with (codes "")) p.storage
  create_restore_wallet-Agrees drawn password (some msg) p =
      elim (split b'$' msg)
        as (λ parts.
          Agrees (names_with (codes "")) p.storage (restore_of drawn password parts p).1.storage) [
            | [] ↦ Agrees-refl (names_with (codes "")) p.storage
            | a ∷ [] ↦ Agrees-refl (names_with (codes "")) p.storage
            | a ∷ b ∷ [] ↦ Agrees-refl (names_with (codes "")) p.storage
            | a ∷ b ∷ salt ∷ rest ↦ restore_from-Agrees drawn password a b salt p
          ]

  pub create_non_restore_wallet-Agrees :
      (k : Kjur) (draw : ℕ → ℕ → WordArray) (seed : ℕ) (password : Text) (p : Page)
      → Agrees
          (names_with (codes "R."))
          p.storage
          (create_non_restore_wallet c k draw seed password p).1.storage
  unfolding create_non_restore_wallet
  create_non_restore_wallet-Agrees k draw seed password p = seal-normal password _ _ _ _ p

  pub IsKept-of :
      (names : Properties) (type password : Text) (salt : WordArray) (target puk address : Text)
      (s t : Storage)
      → t wallet_type ≡ some type
      → IsKept c names type password salt target puk address s
      → Agrees names s t
      → IsKept c names type password salt target puk address t
  IsKept-of names type password salt target puk address s t chosen kept
        (version, os, salt_kept, cnt, ciphered, puk_kept, addr, mac) =
      record {
        type_kept = chosen;
        version_kept = version ∙ kept.version_kept;
        os_kept = os ∙ kept.os_kept;
        salt_kept = salt_kept ∙ kept.salt_kept;
        iteration_cnt_kept = cnt ∙ kept.iteration_cnt_kept;
        target_kept = ciphered ∙ kept.target_kept;
        puk_kept = puk_kept ∙ kept.puk_kept;
        address_kept = addr ∙ kept.address_kept;
        mac_kept = mac ∙ kept.mac_kept;
      }

  -- Whatever restore data a page is given, well-formed or not, and whether a wallet comes of it
  -- or not: a normal wallet that was whole is whole again once its type is set.
  pub restore_keeps_normal :
      (password : Text) (salt : WordArray) (target puk address : Text) (p : Page)
      → IsKept c
          (get_wallet_properties type_normal)
          type_normal
          password
          salt
          target
          puk
          address
          p.storage
      → (drawn : WordArray) (other : Text) (data_ : Option Text)
      → IsKept c
          (get_wallet_properties type_normal)
          type_normal
          password
          salt
          target
          puk
          address
          (set_type type_normal (create_restore_wallet c drawn other data_ p).1).1.storage
  unfolding get_wallet_properties index_of
  restore_keeps_normal password salt target puk address p kept drawn other data_ =
      rw (set_type_lem type_normal (create_restore_wallet c drawn other data_ p).1) (
        IsKept-of (names_with (codes "")) type_normal password salt target puk address p.storage
          (write (create_restore_wallet c drawn other data_ p).1.storage wallet_type type_normal)
          refl kept (create_restore_wallet-Agrees drawn other data_ p))

  -- Making a normal wallet, whether one is kept already or not: a restore wallet that was whole
  -- is whole again once its type is set.
  pub normal_keeps_restore :
      (password : Text) (salt : WordArray) (target puk address : Text) (p : Page)
      → IsKept c
          (get_wallet_properties type_restore)
          type_restore
          password
          salt
          target
          puk
          address
          p.storage
      → (k : Kjur) (draw : ℕ → ℕ → WordArray) (seed : ℕ) (other : Text)
      → IsKept c
          (get_wallet_properties type_restore)
          type_restore
          password
          salt
          target
          puk
          address
          (set_type type_restore (create_non_restore_wallet c k draw seed other p).1).1.storage
  unfolding get_wallet_properties index_of
  normal_keeps_restore password salt target puk address p kept k draw seed other =
      rw (set_type_lem type_restore (create_non_restore_wallet c k draw seed other p).1) (
        IsKept-of (names_with (codes "R.")) type_restore password salt target puk address p.storage
          (write (create_non_restore_wallet c k draw seed other p).1.storage wallet_type
            type_restore)
          refl kept (create_non_restore_wallet-Agrees k draw seed other p))
