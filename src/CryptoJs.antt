-- ===== src/CryptoJs.antt =====
-- CryptoJS inside the bundle
-- (JavascriptSrc/WebContent/wallet/moaCryptoJS/moaCryptoModule-v1.0.0.js): word arrays. An array of
-- words is the function from its places to its words, each below 2 ^ 32; a place that holds nothing
-- counts as 0, as it does under the operators that read it.
pub mod Digits
pub mod Fill
pub mod Xor
pub mod Bytes
pub mod Hex
pub mod Join
pub mod Latin1
pub mod Clamp
pub mod Concat
pub mod Pkcs7
pub mod Padding
pub mod Append
pub mod Modes
pub mod ModeLaws
pub mod Buffer
pub mod Base64
pub mod OpenSsl
pub mod BlockCipher
pub mod AesTables
pub mod Aes
pub mod Sha256
pub mod Hmac
pub mod HmacSha256
pub mod Octets
mod Tests
use Prim.Native.Nat.{bit_or}
use moa_crypto.Common.{
  ℕ, zero, suc, ◌+◌, ◌-◌, ◌*◌, ◌/◌, ◌%◌, ◌^◌, List, [], ◌∷◌, if◌then◌else◌, ◌==◌, ltb,
}

abbrev pub Words : Type 0
Words = ℕ → ℕ

abbrev pub no_words : Words
no_words i = 0

-- words[place] = word
abbrev pub set : Words → ℕ → ℕ → Words
set words place word i = if i == place then word else words i

pub record WordArray : Type 0 where
  pub words : Words
  pub sig_bytes : ℕ

-- (word >>> (24 - k * 8)) & 0xff
unfoldable pub byte_of : (word k : ℕ) → ℕ
byte_of word k = word / 2 ^ (24 - k * 8) % 256

-- The byte of the words at an index.
abbrev pub byte_at : Words → ℕ → ℕ
byte_at words i = byte_of (words (i / 4)) (i % 4)

-- word | byte << (24 - k * 8)
unfoldable pub or_byte : (word byte k : ℕ) → ℕ
or_byte word byte k = bit_or word (byte * 2 ^ (24 - k * 8) % 2 ^ 32)

-- words[i >>> 2] |= byte << (24 - (i % 4) * 8)
unfoldable pub put_byte : Words → (i byte : ℕ) → Words
put_byte words i byte = set words (i / 4) (or_byte (words (i / 4)) byte (i % 4))

-- The bytes of the words from an index on, so many.
unfoldable pub bytes_from : Words → (i count : ℕ) → List ℕ
bytes_from words i zero = []
bytes_from words i (suc count) = byte_at words i ∷ bytes_from words (suc i) count

-- What a word array stands for.
abbrev pub bytes : WordArray → List ℕ
bytes w = bytes_from w.words 0 w.sig_bytes
