-- ===== src/Wallet/Bytes.antt =====
-- wordToByteArray against its inverse, and the sizes of generateHmacPsw and its input.
use moa_crypto.Common.{
  ◌≡◌, refl, ℕ, ◌+◌, ◌*◌, ◌^◌, ◌<◌, List, [], ◌∷◌, length, All, arith, Bool-cases, inl, inr, drop,
  length-take, length-drop,
}
use mathlib.Core.Path.{ap₂}
use moa_crypto.Text.{Text}
use moa_crypto.CryptoModule.{CryptoModule, DigestLaws}
use moa_crypto.Wallet.Password.{word_to_byte_array, generate_hmac_psw, first_is_even}

abbrev pub IsByte : ℕ → Type 0
IsByte n = n < 256

abbrev pub IsWord : ℕ → Type 0
IsWord n = n < 2 ^ 32

-- The words of four bytes each, the highest first; a rest of less is left out.
abbrev pub words_of_bytes : List ℕ → List ℕ
words_of_bytes (a ∷ b ∷ c ∷ d ∷ rest) = (((a * 256 + b) * 256 + c) * 256 + d) ∷ words_of_bytes rest
words_of_bytes _ = []

-- The byte array of a word array holds bytes only, four for each word, and gives the words back,
-- where they have 32 bits.
pub word_to_byte_array_lem :
    (words : List ℕ)
    → All IsWord words
    → All IsByte (word_to_byte_array words)
      × (length (word_to_byte_array words) ≡ 4 * length words)
      × (words_of_bytes (word_to_byte_array words) ≡ words)
unfolding word_to_byte_array
word_to_byte_array_lem [] h = (tt, refl, refl)
word_to_byte_array_lem (word ∷ words) (h, hs) =
    let (bytes, size, back) = word_to_byte_array_lem words hs in
    (
      (omega arith, (omega arith, (omega arith, (omega arith, bytes)))),
      omega arith,
      ap₂ (λ a r. a ∷ r) (omega arith) back,
    )

module _ (c : CryptoModule) (digests : DigestLaws c) where
  -- Whichever half of the HMAC the digest selects, generateHmacPsw returns 28 digits, where the
  -- digests have 32 bytes.
  pub length-generate_hmac_psw : (psw : Text) → length (generate_hmac_psw c psw) ≡ 28
  unfolding generate_hmac_psw
  length-generate_hmac_psw psw =
      let hash = c.sha256 (c.utf8_parse psw) in
      let hmac = c.hex_stringify (c.hmac_sha256 (c.utf8_parse psw) hash) in
      let size = digests.length-hmac_sha256 (c.utf8_parse psw) hash in
      elim (Bool-cases (first_is_even (word_to_byte_array (c.words hash)))) [
        | inl even ↦
            rw even (omega (arith, length-take 28 (drop 28 hmac), length-drop 28 hmac, size))
        | inr odd ↦ rw odd (omega (arith, length-take 28 hmac, size))
      ]
