-- ===== src/Wallet/KeyReuse.antt =====
-- What the restore message gives away: generateRestoreDataFormat encrypts both halves of the key pair
-- under one key and one initial vector.
use Prim.Native.Nat.{bit_xor}
use mathlib.Core.Path.{ap₂}
use moa_crypto.Common.{◌≡◌, refl, ◌∙◌, ap, ℕ, suc, List, [], ◌∷◌, length, ◌≤◌, arith}
use moa_crypto.Common.Bits.{bit_xor_twice, bit_xor_comm, bit_xor_other}
use moa_crypto.Common.Xor.{bit_xor_assoc}
use moa_crypto.Text.{Text}
use moa_crypto.Text.Hex.{IsHex}
use moa_crypto.Text.Digits.{unhex}
use moa_crypto.CryptoModule.{CryptoModule, CodecLaws, CipherLaws}
use moa_crypto.Kjur.{Kjur}
use moa_crypto.Wallet.{salt_size}
use moa_crypto.Wallet.Create.{generate_restore_data_format}
use moa_crypto.Wallet.Cipher.{encrypt_aes_data, aes_key, aes_iv}
use moa_crypto.Wallet.Lifecycle.{generated}
use moa_crypto.Wallet.RestoreCycle.{
  restore_message, enc_prk, enc_puk, generate_restore_data_format_lem,
}

-- Byte for byte, as far as both go.
abbrev pub xor_bytes : List ℕ → List ℕ → List ℕ
xor_bytes [] b = []
xor_bytes (x ∷ a) [] = []
xor_bytes (x ∷ a) (y ∷ b) = bit_xor x y ∷ xor_bytes a b

-- The bytes under a stream of others.
abbrev pub under : (ℕ → ℕ) → List ℕ → List ℕ
under stream [] = []
under stream (x ∷ a) = bit_xor x (stream 0) ∷ under (λ i. stream (suc i)) a

-- Counter mode: the bytes of the ciphertext are those of the message under a stream that the key and
-- the initial vector give.
pub record CounterLaw (c : CryptoModule) : Type 0 where
  pub stream : (key iv : c.WordArray) → ℕ → ℕ
  pub ctr_encrypt-under :
      (m key iv : c.WordArray)
      → unhex (c.hex_stringify (c.ctr_encrypt m key iv).ciphertext)
        ≡ under (stream key iv) (unhex (c.hex_stringify m))

swapped : (x y z : ℕ) → bit_xor (bit_xor (bit_xor x z) (bit_xor y z)) y ≡ x
swapped x y z =
    ap (λ v. bit_xor v y)
      (bit_xor_assoc x z (bit_xor y z)
        ∙ ap (bit_xor x)
            (ap (bit_xor z) (bit_xor_comm y z) ∙ bit_xor_comm z (bit_xor z y) ∙ bit_xor_other z y))
    ∙ bit_xor_twice x y

same_stream :
    (stream : ℕ → ℕ) (a b : List ℕ)
    → length a ≤ length b
    → xor_bytes (xor_bytes (under stream a) (under stream b)) b ≡ a
same_stream stream [] b h = refl
same_stream stream (x ∷ a) [] h = absurd (omega arith)
same_stream stream (x ∷ a) (y ∷ b) h =
    ap₂ (λ v r. v ∷ r) (swapped x y (stream 0))
      (same_stream (λ i. stream (suc i)) a b (omega arith))

-- The restore message holds two ciphertexts whose exclusive or with each other and with the bytes
-- of the public key is the private key, without the password. The two keys are hexadecimal and
-- the public one has as many bytes as the private one at least; the laws of the encoders and
-- ciphers are assumed, and that counter mode puts a message under a stream that the key and the
-- initial vector give.
pub generate_restore_data_format-reveals :
    (c : CryptoModule) (codec : CodecLaws c) (ciphers : CipherLaws c) (counter : CounterLaw c)
    (k : Kjur) (draw : ℕ → ℕ → c.WordArray) (seed : ℕ) (password : Text)
    → IsHex (generated k seed).ecprvhex
    → IsHex (generated k seed).ecpubhex
    → length (unhex (generated k seed).ecprvhex) ≤ length (unhex (generated k seed).ecpubhex)
    → (e1 : c.WordArray) × (e2 : c.WordArray) × (generate_restore_data_format c k draw seed password
        ≡ restore_message c password e1 e2 (draw 0 salt_size))
      × (xor_bytes
            (xor_bytes (unhex (c.hex_stringify e1)) (unhex (c.hex_stringify e2)))
            (unhex (generated k seed).ecpubhex)
          ≡ unhex (generated k seed).ecprvhex)
unfolding encrypt_aes_data
generate_restore_data_format-reveals c codec ciphers counter k draw seed password prk puk size =
    let key = aes_key c password (draw 0 salt_size) in
    let iv = aes_iv c password (draw 0 salt_size) in
    (
      enc_prk c k draw seed password,
      enc_puk c k draw seed password,
      generate_restore_data_format_lem c codec ciphers k draw seed password,
      rw
          (
            counter.ctr_encrypt-under (c.hex_parse (generated k seed).ecprvhex) key iv,
            counter.ctr_encrypt-under (c.hex_parse (generated k seed).ecpubhex) key iv,
            codec.hex_stringify-hex_parse (generated k seed).ecprvhex prk,
            codec.hex_stringify-hex_parse (generated k seed).ecpubhex puk,
          )
          (same_stream (counter.stream key iv) (unhex (generated k seed).ecprvhex)
            (unhex (generated k seed).ecpubhex) size),
    )
