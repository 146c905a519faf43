-- ===== src/CryptoJs/Pkcs7.antt =====
-- CryptoJS.pad.Pkcs7 and CryptoJS.pad.NoPadding.
use Prim.Native.Nat.{bit_or}
use moa_crypto.Common.{
  ◌≡◌, refl, ℕ, zero, suc, ◌+◌, ◌-◌, ◌*◌, ◌/◌, ◌%◌, ◌^◌, ◌≤◌, ◌<◌, List, [], ◌∷◌, ◌++◌, length,
  arith, get_elem?, some, holds_below, test_of_holds_below, ◌==◌, ==_iff, true, if◌then◌else◌,
}
use mathlib.Core.Path.{ap₂}
use moa_crypto.CryptoJs.{Words, WordArray, byte_of, byte_at, bytes_from, bytes}
use moa_crypto.CryptoJs.Fill.{below_four}
use moa_crypto.CryptoJs.Join.{words_of, concat}

-- A value so many times, as the loop pushes it.
abbrev pub replicate : ℕ → ℕ → List ℕ
replicate zero a = []
replicate (suc n) a = a ∷ replicate n a

-- The number of padding bytes.
abbrev pub padding_size : (sig_bytes block_size : ℕ) → ℕ
padding_size sig_bytes block_size = block_size * 4 - sig_bytes % (block_size * 4)

-- (n << 24) | (n << 16) | (n << 8) | n
unfoldable pub padding_word : ℕ → ℕ
padding_word n =
    bit_or (bit_or (bit_or (n * 2 ^ 24 % 2 ^ 32) (n * 2 ^ 16 % 2 ^ 32)) (n * 2 ^ 8 % 2 ^ 32)) n

unfoldable pub padding : ℕ → WordArray
unfolding padding_word
padding n = record { words = words_of (replicate ((n + 3) / 4) (padding_word n)); sig_bytes = n }

unfoldable pub pad : (data_ : WordArray) (block_size : ℕ) → WordArray
unfolding concat padding
pad data_ block_size = concat data_ (padding (padding_size data_.sig_bytes block_size))

-- data.words[(data.sigBytes - 1) >>> 2] & 0xff; the place before the first holds nothing.
abbrev pub last_byte : WordArray → ℕ
last_byte data_ = if data_.sig_bytes == 0 then 0 else data_.words ((data_.sig_bytes - 1) / 4) % 256

-- A count below 0 has no bytes, as 0 has.
unfoldable pub unpad : WordArray → WordArray
unpad data_ = record data_ { sig_bytes = data_.sig_bytes - last_byte data_ }

-- CryptoJS.pad.NoPadding
abbrev pub no_padding : WordArray → WordArray
no_padding data_ = data_

word_table : holds_below (λ n. padding_word n == n * 16843009) 256 ≡ true
unfolding holds_below padding_word
word_table = refl

pub padding_word_lem : (n : ℕ) → n < 256 → padding_word n ≡ n * 16843009
padding_word_lem n h = (==_iff _ _).0 (test_of_holds_below _ 256 n h word_table)

byte_of-padding_word : (n : ℕ) → n < 256 → (k : ℕ) → k < 4 → byte_of (padding_word n) k ≡ n
unfolding byte_of
byte_of-padding_word n h = rw (padding_word_lem n h) (
    below_four (λ k. byte_of (n * 16843009) k ≡ n) (omega arith) (omega arith) (omega arith)
      (omega arith))

pub words_of-replicate : (m a i : ℕ) → i < m → words_of (replicate m a) i ≡ a
words_of-replicate zero a i h = absurd (omega arith)
words_of-replicate (suc m) a zero h = refl
words_of-replicate (suc m) a (suc i) h = words_of-replicate m a i (omega arith)

bytes_from-replicate :
    (w : Words) (i count a : ℕ)
    → ((j : ℕ) → i ≤ j → j < i + count → byte_at w j ≡ a)
    → bytes_from w i count ≡ replicate count a
unfolding bytes_from
bytes_from-replicate w i zero a h = refl
bytes_from-replicate w i (suc count) a h =
    ap₂ (λ b r. b ∷ r) (h i (omega arith) (omega arith))
      (bytes_from-replicate w (suc i) count a (λ j p q. h j (omega arith) (omega arith)))

pub bytes-padding : (n : ℕ) → n < 256 → bytes (padding n) ≡ replicate n n
unfolding padding
bytes-padding n h = bytes_from-replicate _ 0 n n (λ j p q.
    rw (words_of-replicate ((n + 3) / 4) (padding_word n) (j / 4) (omega arith))
      (byte_of-padding_word n h (j % 4) (omega arith)))

pub get_elem?-bytes_from :
    (w : Words) (i count k : ℕ)
    → k < count
    → get_elem? (bytes_from w i count) k ≡ some (byte_at w (i + k))
unfolding bytes_from
get_elem?-bytes_from w i zero k h = absurd (omega arith)
get_elem?-bytes_from w i (suc count) zero h = let e : i + 0 ≡ i = omega arith in rw e refl
get_elem?-bytes_from w i (suc count) (suc k) h =
    let e : i + suc k ≡ suc i + k = omega arith in
    rw e (get_elem?-bytes_from w (suc i) count k (omega arith))

pub get_elem?-append :
    (xs ys : List ℕ) (k : ℕ) → get_elem? (xs ++ ys) (length xs + k) ≡ get_elem? ys k
get_elem?-append [] ys k = let e : 0 + k ≡ k = omega arith in rw e refl
get_elem?-append (x ∷ xs) ys k =
    let e : suc (length xs) + k ≡ suc (length xs + k) = omega arith in
    rw e (get_elem?-append xs ys k)

pub get_elem?-replicate : (n a k : ℕ) → k < n → get_elem? (replicate n a) k ≡ some a
get_elem?-replicate zero a k h = absurd (omega arith)
get_elem?-replicate (suc n) a zero h = refl
get_elem?-replicate (suc n) a (suc k) h = get_elem?-replicate n a k (omega arith)
