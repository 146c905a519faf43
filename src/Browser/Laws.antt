-- ===== src/Browser/Laws.antt =====
-- Reading after writing in localStorage.
use moa_crypto.Common.{◌≡◌, refl, ◌≢◌, some, Bool-cases, inl, inr}
use moa_crypto.Text.{Text, text_eq}
use moa_crypto.Text.Laws.{text_eq_refl, eq_of_text_eq}
use moa_crypto.Browser.{Storage, write}

pub write_self : (s : Storage) (key value : Text) → write s key value key ≡ some value
write_self s key value = rw (text_eq_refl key) refl

pub write_ne : (s : Storage) (key value j : Text) → j ≢ key → write s key value j ≡ s j
write_ne s key value j ne = elim (Bool-cases (text_eq j key)) [
  | inl same ↦ absurd (ne (eq_of_text_eq j key same))
  | inr other ↦ rw other refl
]
