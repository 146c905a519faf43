-- ===== src/CryptoJs/Latin1.antt =====
-- CryptoJS.enc.Latin1, and CryptoJS.enc.Utf8 over it: the conversion between a string and its UTF-8
-- units, unescape(encodeURIComponent(s)) and back, belongs to the language and is a parameter.
use moa_crypto.Common.{
  ◌≡◌, refl, ap, ◌∙◌, ℕ, zero, suc, ◌%◌, [], ◌∷◌, length, arith, All, Option, some,
}
use moa_crypto.Text.{Text}
use moa_crypto.CryptoJs.{Words, WordArray, no_words, byte_at, put_byte, bytes_from, bytes}
use moa_crypto.CryptoJs.Bytes.{
  IsByte, fill, fill_lem, bytes_from-IsByte, no_words-AreWords, no_words-IsClear,
}

-- The loop of stringify, from the index i on.
unfoldable pub latin1_chars : Words → (i count : ℕ) → Text
latin1_chars words i zero = []
latin1_chars words i (suc count) = byte_at words i ∷ latin1_chars words (suc i) count

unfoldable pub stringify : WordArray → Text
unfolding latin1_chars
stringify w = latin1_chars w.words 0 w.sig_bytes

-- The loop of parse, on what is left of the string.
unfoldable pub parse_chars : Text → (i : ℕ) → Words → Words
parse_chars [] i words = words
parse_chars (char_code ∷ rest) i words =
    parse_chars rest (suc i) (put_byte words i (char_code % 256))

unfoldable pub parse : Text → WordArray
unfolding parse_chars
parse latin1_str = record {
  words = parse_chars latin1_str 0 no_words;
  sig_bytes = length latin1_str;
}

-- The units of a string in UTF-8; `none` is an error of decodeURIComponent.
pub record Utf8Units : Type 0 where
  pub encode : Text → Text
  pub decode : Text → Option Text

unfoldable pub utf8_stringify : Utf8Units → WordArray → Option Text
unfolding stringify
utf8_stringify u w = u.decode (stringify w)

unfoldable pub utf8_parse : Utf8Units → Text → WordArray
unfolding parse
utf8_parse u utf8_str = parse (u.encode utf8_str)

latin1_chars_lem :
    (words : Words) (i count : ℕ) → latin1_chars words i count ≡ bytes_from words i count
unfolding latin1_chars bytes_from
latin1_chars_lem words i zero = refl
latin1_chars_lem words i (suc count) =
    ap (λ r. byte_at words i ∷ r) (latin1_chars_lem words (suc i) count)

parse_chars-fill :
    (t : Text) (i : ℕ) (words : Words) → All IsByte t → parse_chars t i words ≡ fill words i t
unfolding parse_chars fill
parse_chars-fill [] i words h = refl
parse_chars-fill (a ∷ t) i words (p, h) =
    let small : a % 256 ≡ a = omega arith in
    rw small (parse_chars-fill t (suc i) (put_byte words i a) h)

bytes-parse : (t : Text) → All IsByte t → bytes (parse t) ≡ t
unfolding parse
bytes-parse t h =
    rw (parse_chars-fill t 0 no_words h)
      (fill_lem no_words 0 t no_words-AreWords no_words-IsClear h).3

-- A string of units below 256 is the list of its bytes: writing gives the bytes of a word array,
-- and parsing and writing undo each other.
pub parse-stringify :
    (w : WordArray) (t : Text)
    → All IsByte t
    → (stringify w ≡ bytes w)
      × (bytes (parse t) ≡ t)
      × (stringify (parse t) ≡ t)
      × (bytes (parse (stringify w)) ≡ bytes w)
unfolding stringify
parse-stringify w t h =
    let written = latin1_chars_lem w.words 0 w.sig_bytes in
    (
      written,
      bytes-parse t h,
      latin1_chars_lem (parse t).words 0 (parse t).sig_bytes ∙ bytes-parse t h,
      rw written (bytes-parse (bytes w) (bytes_from-IsByte w.words 0 w.sig_bytes)),
    )

-- The UTF-8 encoder gives a string back, where the units of a string are bytes and decoding them
-- gives the string.
pub utf8_stringify-utf8_parse :
    (u : Utf8Units) (t : Text)
    → All IsByte (u.encode t)
    → u.decode (u.encode t) ≡ some t
    → utf8_stringify u (utf8_parse u t) ≡ some t
unfolding utf8_stringify utf8_parse stringify
utf8_stringify-utf8_parse u t h back =
    ap u.decode (parse-stringify (parse (u.encode t)) (u.encode t) h).2 ∙ back
