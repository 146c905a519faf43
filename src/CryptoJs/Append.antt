-- ===== src/CryptoJs/Append.antt =====
-- Joining keeps words in range; what is appended to a buffer that is reset is the whole of it; and
-- so many bytes are given by so many words.
use moa_crypto.Common.{
  ◌≡◌, refl, ◌∙◌, sym, ap, ℕ, zero, suc, ◌+◌, ◌*◌, ◌/◌, ◌%◌, ◌^◌, ◌<◌, arith, ◌==◌, Bool-cases, inl,
  inr, length, get_elem?,
}
use moa_crypto.CryptoJs.{Words, WordArray, set, byte_of, byte_at, bytes_from, bytes}
use moa_crypto.CryptoJs.Fill.{AreWords}
use moa_crypto.CryptoJs.Bytes.{fill_lem, bytes_from-IsByte, length-bytes_from, no_words-AreWords}
use moa_crypto.CryptoJs.Join.{concat, copy_words, clamp, words_of}
use moa_crypto.CryptoJs.Clamp.{clamp-AreWords, clamp-IsClear}
use moa_crypto.CryptoJs.Concat.{
  copy_words-at, copy_bytes-fill, bytes-concat, concat-by_words, concat-by_bytes,
}
use moa_crypto.CryptoJs.Buffer.{reset}
use moa_crypto.CryptoJs.Padding.{some_injective}
use moa_crypto.CryptoJs.Pkcs7.{
  replicate, padding, padding_word, padding_word_lem, padding_size, pad, get_elem?-bytes_from,
}

pub set-AreWords :
    (words : Words) (place word : ℕ)
    → AreWords words
    → word < 2 ^ 32
    → AreWords (set words place word)
set-AreWords words place word w h i = elim (Bool-cases (i == place)) [
  | inl here ↦ rw here h
  | inr other ↦ rw other (w i)
]

copy_words-AreWords :
    (that : Words)
    → AreWords that
    → (s i rounds : ℕ) (words : Words) → AreWords words
    → AreWords (copy_words that s i rounds words)
unfolding copy_words
copy_words-AreWords that t s i zero words w = w
copy_words-AreWords that t s i (suc rounds) words w =
    copy_words-AreWords that t s (i + 4) rounds (set words ((s + i) / 4) (that (i / 4)))
      (set-AreWords words ((s + i) / 4) (that (i / 4)) w (t (i / 4)))

pub concat-AreWords :
    (v w : WordArray) → AreWords v.words → AreWords w.words → AreWords (concat v w).words
concat-AreWords v w vs ws = elim (Bool-cases (v.sig_bytes % 4 == 0)) [
  | inl whole ↦ rw (concat-by_words v w whole) (
      copy_words-AreWords w.words ws v.sig_bytes 0 ((w.sig_bytes + 3) / 4) (clamp v).words
        (clamp-AreWords v vs))
  | inr part ↦
      let (kept, _, _, _) =
        fill_lem (clamp v).words (v.sig_bytes + 0) (bytes w) (clamp-AreWords v vs)
          (λ i h. clamp-IsClear v vs i (omega arith)) (bytes_from-IsByte w.words 0 w.sig_bytes) in
      rw (concat-by_bytes v w part, copy_bytes-fill) kept
]

pub sig_bytes-concat : (v w : WordArray) → (concat v w).sig_bytes ≡ v.sig_bytes + w.sig_bytes
unfolding concat
sig_bytes-concat v w = refl

replicate-below : (n word : ℕ) → word < 2 ^ 32 → AreWords (words_of (replicate n word))
replicate-below zero word h i = omega arith
replicate-below (suc n) word h zero = h
replicate-below (suc n) word h (suc i) = replicate-below n word h i

pub padding-AreWords : (n : ℕ) → n < 256 → AreWords (padding n).words
unfolding padding
padding-AreWords n h =
    replicate-below ((n + 3) / 4) (padding_word n) (rw (padding_word_lem n h) (omega arith))

pub pad-AreWords : (w : WordArray) → AreWords w.words → AreWords (pad w 4).words
unfolding pad
pad-AreWords w ws =
    concat-AreWords w (padding (padding_size w.sig_bytes 4)) ws
      (padding-AreWords (padding_size w.sig_bytes 4) (omega arith))

-- What a buffer that is reset holds once an array is appended.
module _ (w : WordArray) where
  abbrev pub appended : WordArray
  appended = concat reset.data_ w

  pub bytes-appended : bytes appended ≡ bytes w
  unfolding bytes_from
  bytes-appended = bytes-concat reset.data_ w no_words-AreWords

  pub sig_bytes-appended : appended.sig_bytes ≡ w.sig_bytes
  sig_bytes-appended = sig_bytes-concat reset.data_ w ∙ omega arith

  pub appended_at : (i : ℕ) → i < (w.sig_bytes + 3) / 4 → appended.words i ≡ w.words i
  appended_at i h =
      let e : (0 + 0) / 4 + i ≡ i = omega arith in
      let copied =
        copy_words-at w.words 0 0 ((w.sig_bytes + 3) / 4) (clamp reset.data_).words i h in
      rw (concat-by_words reset.data_ w refl) (rw e at copied)

  pub appended-AreWords : AreWords w.words → AreWords appended.words
  appended-AreWords = concat-AreWords reset.data_ w no_words-AreWords

-- Two arrays of the same bytes have the same size, and the same byte at each place.
pub sig_bytes-of_bytes : (v w : WordArray) → bytes v ≡ bytes w → v.sig_bytes ≡ w.sig_bytes
sig_bytes-of_bytes v w e =
    sym (length-bytes_from v.words 0 v.sig_bytes)
    ∙ ap length e
    ∙ length-bytes_from w.words 0 w.sig_bytes

pub byte_at-of_bytes :
    (v w : WordArray)
    → bytes v ≡ bytes w
    → (i : ℕ) → i < w.sig_bytes
    → byte_at v.words i ≡ byte_at w.words i
byte_at-of_bytes v w e i h =
    let size = sig_bytes-of_bytes v w e in
    let start : 0 + i ≡ i = omega arith in
    rw (← start) (
      some_injective (byte_at v.words (0 + i)) (byte_at w.words (0 + i)) (
        sym (get_elem?-bytes_from v.words 0 v.sig_bytes i (omega (arith, size)))
        ∙ ap (λ b. get_elem? b i) e
        ∙ get_elem?-bytes_from w.words 0 w.sig_bytes i h))

pub word_of_bytes :
    (a b : ℕ)
    → a < 2 ^ 32
    → b < 2 ^ 32
    → byte_of a 0 ≡ byte_of b 0
    → byte_of a 1 ≡ byte_of b 1
    → byte_of a 2 ≡ byte_of b 2
    → byte_of a 3 ≡ byte_of b 3
    → a ≡ b
unfolding byte_of
word_of_bytes a b h k e f g l = omega arith

-- The words of two arrays of 32-bit words that have the same bytes, as far as these fill them.
pub words-of_bytes :
    (v w : WordArray)
    → AreWords v.words
    → AreWords w.words
    → bytes v ≡ bytes w
    → (j : ℕ) → j * 4 + 3 < w.sig_bytes
    → v.words j ≡ w.words j
words-of_bytes v w vs ws e j h =
    word_of_bytes (v.words j) (w.words j) (vs j) (ws j) (at 0 (omega arith)) (at 1 (omega arith))
      (at 2 (omega arith)) (at 3 (omega arith))
  where
    at : (k : ℕ) → k < 4 → byte_of (v.words j) k ≡ byte_of (w.words j) k
    at k l =
        let place : (j * 4 + k) / 4 ≡ j = omega arith in
        let rest : (j * 4 + k) % 4 ≡ k = omega arith in
        let same = byte_at-of_bytes v w e (j * 4 + k) (omega arith) in rw (place, rest) at same
