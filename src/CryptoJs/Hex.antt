-- ===== src/CryptoJs/Hex.antt =====
-- CryptoJS.enc.Hex. The digits of a text of odd length would make sigBytes a fraction; such a text
-- is cut to whole bytes here.
use Prim.Native.Nat.{bit_or}
use moa_crypto.Common.{
  ◌≡◌, refl, sym, ap, ◌∙◌, ℕ, zero, suc, ◌+◌, ◌-◌, ◌*◌, ◌/◌, ◌%◌, ◌^◌, [], ◌∷◌, ◌++◌, length, arith,
  drop-append, append_assoc, length-append,
}
use moa_crypto.Text.{Text, digit, parse_int16, substr, nan_to_zero}
use moa_crypto.Text.Hex.{IsHex}
use moa_crypto.Text.Digits.{
  digit_of, parse_int16-two, hex_of, unhex, length-unhex, unhex-bytes, hex_of-unhex, hex_of-IsHex,
  unhex-hex_of,
}
use moa_crypto.CryptoJs.{
  Words, WordArray, no_words, set, byte_at, put_byte, or_byte, bytes_from, bytes,
}
use moa_crypto.CryptoJs.Bytes.{
  fill, fill_lem, bytes_from-IsByte, no_words-AreWords, no_words-IsClear,
}

-- The loop of stringify, from the index i on, for so many bytes.
unfoldable pub hex_chars : Words → (i count : ℕ) → Text
hex_chars words i zero = []
hex_chars words i (suc count) =
    digit (byte_at words i / 16) ∷ digit (byte_at words i % 16) ∷ hex_chars words (suc i) count

unfoldable pub stringify : WordArray → Text
unfolding hex_chars
stringify w = hex_chars w.words 0 w.sig_bytes

-- words[i >>> 3] |= parseInt(hexStr.substr(i, 2), 16) << (24 - (i % 8) * 4)
unfoldable pub put_digits : (hex_str : Text) (i : ℕ) → Words → Words
put_digits hex_str i words = set words (i / 8) (
    bit_or (words (i / 8))
      (nan_to_zero (parse_int16 (substr hex_str i 2)) * 2 ^ (24 - i % 8 * 4) % 2 ^ 32))

-- The loop of parse, for so many rounds from the index i on.
unfoldable pub parse_rounds : (hex_str : Text) (rounds i : ℕ) → Words → Words
parse_rounds hex_str zero i words = words
parse_rounds hex_str (suc rounds) i words =
    parse_rounds hex_str rounds (i + 2) (put_digits hex_str i words)

unfoldable pub parse : Text → WordArray
unfolding parse_rounds put_digits
parse hex_str = record {
  words = parse_rounds hex_str (length hex_str / 2) 0 no_words;
  sig_bytes = length hex_str / 2;
}

hex_chars_lem :
    (words : Words) (i count : ℕ) → hex_chars words i count ≡ hex_of (bytes_from words i count)
unfolding hex_chars bytes_from
hex_chars_lem words i zero = refl
hex_chars_lem words i (suc count) =
    ap (λ r. digit (byte_at words i / 16) ∷ digit (byte_at words i % 16) ∷ r)
      (hex_chars_lem words (suc i) count)

-- A round at the byte n, where two digits stand behind a prefix of n bytes.
put_digits-put_byte :
    (pre rest : Text) (a b n : ℕ) (words : Words)
    → length pre ≡ 2 * n
    → IsHex (a ∷ b ∷ [])
    → put_digits (pre ++ a ∷ b ∷ rest) (2 * n) words
      ≡ put_byte words n (digit_of a * 16 + digit_of b)
unfolding put_digits put_byte or_byte
put_digits-put_byte pre rest a b n words e h =
    let place : 2 * n / 8 ≡ n / 4 = omega arith in
    let shift : 2 * n % 8 * 4 ≡ n % 4 * 8 = omega arith in
    rw
      (
        drop-append pre (a ∷ b ∷ rest) {n = 2 * n} (sym e),
        place,
        shift,
        parse_int16-two a b h.0 h.1,
      )
      refl

parse_rounds-suc :
    (s : Text) (rounds i : ℕ) (words : Words)
    → parse_rounds s (suc rounds) i words ≡ parse_rounds s rounds (i + 2) (put_digits s i words)
unfolding parse_rounds
parse_rounds-suc s rounds i words = refl

parse_rounds-zero : (s : Text) (i : ℕ) (words : Words) → parse_rounds s 0 i words ≡ words
unfolding parse_rounds
parse_rounds-zero s i words = refl

parse_rounds-fill :
    (pre t : Text) (n : ℕ) (words : Words)
    → length pre ≡ 2 * n
    → IsHex t
    → parse_rounds (pre ++ t) (length t / 2) (2 * n) words ≡ fill words n (unhex t)
unfolding fill
parse_rounds-fill pre [] n words e h = parse_rounds-zero (pre ++ []) (2 * n) words
parse_rounds-fill pre (a ∷ []) n words e h = absurd h
parse_rounds-fill pre (a ∷ b ∷ t) n words e h =
    let rounds : length (a ∷ b ∷ t) / 2 ≡ suc (length t / 2) = omega arith in
    let next : 2 * n + 2 ≡ 2 * suc n = omega arith in
    rw
      (
        rounds,
        parse_rounds-suc (pre ++ a ∷ b ∷ t) (length t / 2) (2 * n) words,
        put_digits-put_byte pre t a b n words e (h.0, h.1, tt),
        next,
        sym (append_assoc pre (a ∷ b ∷ []) t),
      )
      (parse_rounds-fill (pre ++ a ∷ b ∷ []) t (suc n) _
        (omega (arith, length-append pre (a ∷ b ∷ []))) h.2)

bytes-parse : (t : Text) → IsHex t → bytes (parse t) ≡ unhex t
unfolding parse
bytes-parse t h =
    let size : length t / 2 ≡ length (unhex t) = omega (arith, length-unhex t h) in
    rw (parse_rounds-fill [] t 0 no_words refl h, size)
      (fill_lem no_words 0 (unhex t) no_words-AreWords no_words-IsClear (unhex-bytes t h)).3

-- Writing gives two digits for each byte of the word array, parsing gives the bytes of a
-- hexadecimal text, and each undoes the other.
pub stringify-parse :
    (w : WordArray) (t : Text)
    → IsHex t
    → (stringify w ≡ hex_of (bytes w))
      × (bytes (parse t) ≡ unhex t)
      × (stringify (parse t) ≡ t)
      × (bytes (parse (stringify w)) ≡ bytes w)
unfolding stringify
stringify-parse w t h =
    let written = hex_chars_lem w.words 0 w.sig_bytes in
    let small = bytes_from-IsByte w.words 0 w.sig_bytes in
    (
      written,
      bytes-parse t h,
      hex_chars_lem (parse t).words 0 (parse t).sig_bytes
          ∙ ap hex_of (bytes-parse t h)
          ∙ hex_of-unhex t h,
      rw written (
          bytes-parse (hex_of (bytes w)) (hex_of-IsHex (bytes w) small)
          ∙ unhex-hex_of (bytes w) small),
    )
