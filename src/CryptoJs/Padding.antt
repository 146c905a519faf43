-- ===== src/CryptoJs/Padding.antt =====
-- Padding a word array to whole blocks of AES, four words each, and taking the padding off again.
use moa_crypto.Common.{
  ◌≡◌, refl, sym, ap, ◌∙◌, ℕ, ◌+◌, ◌-◌, ◌/◌, ◌%◌, ◌<◌, List, ◌++◌, length, arith, get_elem?, some,
  take, take-append, ◌==◌, ==_iff, Bool-cases, inl, inr, Option,
}
use moa_crypto.CryptoJs.{Words, WordArray, byte_of, byte_at, bytes_from, bytes}
use moa_crypto.CryptoJs.Fill.{AreWords}
use moa_crypto.CryptoJs.Bytes.{bytes_from_add, length-bytes_from}
use moa_crypto.CryptoJs.Join.{concat}
use moa_crypto.CryptoJs.Concat.{bytes-concat}
use moa_crypto.CryptoJs.Pkcs7.{
  replicate, padding, padding_size, pad, unpad, last_byte, bytes-padding, get_elem?-append,
  get_elem?-replicate, get_elem?-bytes_from,
}

pub some_injective : (a b : ℕ) → ◌≡◌ {A = Option ℕ} (some a) (some b) → a ≡ b
some_injective a b e = cc

-- The last byte of an array of whole words that ends in n bytes n.
pub last_byte_of :
    (w : WordArray) (front : List ℕ) (n : ℕ)
    → bytes w ≡ front ++ replicate n n
    → w.sig_bytes ≡ length front + n
    → 0 < n
    → w.sig_bytes % 4 ≡ 0
    → last_byte w ≡ n
unfolding byte_of
last_byte_of w front n e size positive whole =
    let read = get_elem?-bytes_from w.words 0 w.sig_bytes (w.sig_bytes - 1) (omega arith) in
    let place : w.sig_bytes - 1 ≡ length front + (n - 1) = omega arith in
    let found : get_elem? (bytes w) (w.sig_bytes - 1) ≡ some n =
      rw (e, place)
        (get_elem?-append front (replicate n n) (n - 1)
          ∙ get_elem?-replicate n n (n - 1) (omega arith)) in
    let byte : byte_at w.words (0 + (w.sig_bytes - 1)) ≡ n =
      some_injective _ n (sym read ∙ found) in
    let at : (0 + (w.sig_bytes - 1)) / 4 ≡ (w.sig_bytes - 1) / 4 = omega arith in
    let third : (0 + (w.sig_bytes - 1)) % 4 ≡ 3 = omega arith in
    let low : w.words ((w.sig_bytes - 1) / 4) / 1 % 256 ≡ n = rw (at, third) at byte in
    elim (Bool-cases (w.sig_bytes == 0)) [
      | inl none_left ↦ absurd (omega (arith, (==_iff w.sig_bytes 0).0 none_left))
      | inr some_left ↦ rw some_left (omega (arith, low))
    ]

pub front_of :
    (w : Words) (s n : ℕ) (xs ys : List ℕ)
    → s ≡ length xs
    → bytes_from w 0 (s + n) ≡ xs ++ ys
    → bytes_from w 0 s ≡ xs
front_of w s n xs ys size e =
    sym (
      take-append (bytes_from w 0 s) (bytes_from w (0 + s) n) {n = s}
        (sym (length-bytes_from w 0 s)))
    ∙ ap (take s) (sym (bytes_from_add w 0 s n) ∙ e)
    ∙ take-append xs ys {n = s} size

-- Taking the padding off any array of whole words that ends in n bytes n.
pub unpad_any :
    (w : WordArray) (front : List ℕ) (n : ℕ)
    → bytes w ≡ front ++ replicate n n
    → w.sig_bytes ≡ length front + n
    → 0 < n
    → w.sig_bytes % 4 ≡ 0
    → bytes (unpad w) ≡ front
unfolding unpad
unpad_any w front n e size positive whole =
    let left : w.sig_bytes - last_byte w ≡ length front =
      omega (arith, size, last_byte_of w front n e size positive whole) in
    rw left (front_of w.words (length front) n front (replicate n n) refl (rw size at e))

module _ (data_ : WordArray) (ws : AreWords data_.words) where
  abbrev n : ℕ
  n = padding_size data_.sig_bytes 4

  abbrev padded : WordArray
  padded = pad data_ 4

  pub bytes-pad : bytes padded ≡ bytes data_ ++ replicate n n
  unfolding pad
  bytes-pad = rw (sym (bytes-padding n (omega arith))) (bytes-concat data_ (padding n) ws)

  pub sig_bytes-pad : padded.sig_bytes ≡ data_.sig_bytes + n
  unfolding pad concat padding
  sig_bytes-pad = refl

  last_byte-pad : last_byte padded ≡ n
  last_byte-pad =
      let size = length-bytes_from data_.words 0 data_.sig_bytes in
      last_byte_of padded (bytes data_) n bytes-pad (sig_bytes-pad ∙ omega (arith, size))
        (omega arith) (omega (arith, sig_bytes-pad))

  -- Padding to whole blocks of 16 bytes adds n bytes n, of which there is at least one, and
  -- taking the padding off leaves the bytes that were padded, where the array holds words of 32
  -- bits.
  pub unpad-pad :
      (bytes padded ≡ bytes data_ ++ replicate n n)
      × (0 < n)
      × (padded.sig_bytes % 16 ≡ 0)
      × (bytes (unpad padded) ≡ bytes data_)
  unfolding unpad
  unpad-pad =
      let left : padded.sig_bytes - last_byte padded ≡ data_.sig_bytes =
        omega (arith, sig_bytes-pad, last_byte-pad) in
      (
        bytes-pad,
        omega arith,
        omega (arith, sig_bytes-pad),
        rw left (
            front_of padded.words data_.sig_bytes n (bytes data_) (replicate n n)
              (sym (length-bytes_from data_.words 0 data_.sig_bytes))
              (rw sig_bytes-pad at bytes-pad)),
      )
