-- ===== src/CryptoJs/OpenSsl/FormatLaws.antt =====
-- What OpenSSL.stringify writes, OpenSSL.parse reads: the ciphertext, and the salt where there is one.
use mathlib.Core.Path.{fun_ext}
use moa_crypto.Common.{
  ◌≡◌, ◌≢◌, refl, ◌∙◌, sym, ap, ℕ, zero, suc, ◌+◌, ◌-◌, ◌*◌, ◌/◌, ◌%◌, ◌≤◌, arith, length, ◌++◌,
  List, take, drop, take-append, drop-append, append_assoc, Bool-cases, inl, inr, true, ◌==◌,
  ==_iff, ◌&&◌, none, some, false, ltb, Bool,
}
use moa_crypto.Text.{Text}
use moa_crypto.CryptoJs.{Words, WordArray, byte_of, bytes_from, bytes}
use moa_crypto.CryptoJs.Fill.{AreWords, IsClear}
use moa_crypto.CryptoJs.Bytes.{bytes_from_add, length-bytes_from}
use moa_crypto.CryptoJs.Join.{truncate, concat}
use moa_crypto.CryptoJs.Concat.{bytes_from_shift, bytes-concat}
use moa_crypto.CryptoJs.Append.{concat-AreWords, sig_bytes-concat, words-of_bytes}
use moa_crypto.CryptoJs.Base64.{stringify, parse}
use moa_crypto.CryptoJs.Base64.RoundTrip.{base64_parse-stringify, parsed-AreWords}
use moa_crypto.CryptoJs.OpenSsl.{Params, salted, format, unformat}

-- Where the bytes are two lists one after the other, each part of the words gives its list.
pub bytes_from_cut :
    (w : Words) (start a b : ℕ) (xs ys : List ℕ)
    → length xs ≡ a
    → bytes_from w start (a + b) ≡ xs ++ ys
    → (bytes_from w start a ≡ xs) × (bytes_from w (start + a) b ≡ ys)
bytes_from_cut w start a b xs ys size e =
    let split = sym (bytes_from_add w start a b) ∙ e in
    let mine = length-bytes_from w start a in
    (
      sym (take-append (bytes_from w start a) (bytes_from w (start + a) b) (sym mine))
          ∙ ap (take a) split
          ∙ take-append xs ys (sym size),
      sym (drop-append (bytes_from w start a) (bytes_from w (start + a) b) (sym mine))
          ∙ ap (drop a) split
          ∙ drop-append xs ys (sym size),
    )

-- The bytes of words read from a place on.
pub bytes_from-shifted :
    (w : Words) (place count : ℕ)
    → bytes_from (λ i. w (place + i)) 0 count ≡ bytes_from w (place * 4) count
bytes_from-shifted w place count =
    bytes_from_shift (λ i. w (place + i)) w 0 (place * 4) count
      (λ k h.
        let at : (place * 4 + k) / 4 ≡ place + (0 + k) / 4 = omega arith in
        let rest : (place * 4 + k) % 4 ≡ (0 + k) % 4 = omega arith in rw (at, rest) refl)

pub salted-AreWords : AreWords salted.words
salted-AreWords zero = omega arith
salted-AreWords (suc zero) = omega arith
salted-AreWords (suc (suc i)) = omega arith

-- A ciphertext whose first eight bytes are not "Salted__".
abbrev pub IsPlain : WordArray → Type 0
IsPlain w = take 8 (bytes w) ≢ bytes salted

-- The test for a header.
abbrev has_header : WordArray → Bool
has_header r = (r.words 0 == 0x53616c74) && (r.words 1 == 0x65645f5f)

unformat_plain :
    (t : Text)
    → has_header (parse t) ≡ false
    → unformat t ≡ record { ciphertext = parse t; salt = none }
unfolding unformat
unformat_plain t e = rw e refl

unformat_salted :
    (t : Text)
    → has_header (parse t) ≡ true
    → unformat t ≡ record {
      ciphertext = record {
        words = λ i. (parse t).words (4 + i);
        sig_bytes = (parse t).sig_bytes - 16;
      };
      salt = some (record { words = truncate (λ i. (parse t).words (2 + i)) 2; sig_bytes = 8 });
    }
unfolding unformat
unformat_salted t e = rw e refl

-- Words that begin as the header does have its bytes.
header_bytes :
    (r : WordArray)
    → r.words 0 ≡ 0x53616c74
    → r.words 1 ≡ 0x65645f5f
    → bytes_from r.words 0 8 ≡ bytes salted
unfolding bytes_from byte_of
header_bytes r e f = rw (e, f) refl

-- There are eight bytes then: the bytes behind those of an array are 0.
header_size : (r : WordArray) (size : ℕ) → IsClear r.words size → r.words 1 ≡ 0x65645f5f → 8 ≤ size
unfolding byte_of
header_size r size clear e = elim (Bool-cases (ltb size 8)) [
  | inl less ↦
      let last : r.words 1 / 1 % 256 ≡ 0 = clear 7 (ground arith) in absurd (omega (arith, e, last))
  | inr enough ↦ ground arith
]

take_eight : (r : WordArray) → 8 ≤ r.sig_bytes → take 8 (bytes r) ≡ bytes_from r.words 0 8
take_eight r h =
    let e : r.sig_bytes ≡ 8 + (r.sig_bytes - 8) = omega arith in
    ap (λ n. take 8 (bytes_from r.words 0 n)) e
    ∙ ap (take 8) (bytes_from_add r.words 0 8 (r.sig_bytes - 8))
    ∙ take-append (bytes_from r.words 0 8) (bytes_from r.words (0 + 8) (r.sig_bytes - 8))
        (sym (length-bytes_from r.words 0 8))

module _ (w : WordArray) (ws : AreWords w.words) where
  abbrev back : WordArray
  back = parse (stringify w)

  bytes-back : bytes back ≡ bytes w
  bytes-back = (base64_parse-stringify w ws).0

  -- A ciphertext that does not begin with "Salted__" is read as it is.
  pub unformat-format_plain :
      IsPlain w
      → (unformat (format (record { ciphertext = w; salt = none }))
          ≡ record { ciphertext = back; salt = none })
  unfolding format
  unformat-format_plain plain = elim (Bool-cases (has_header back)) [
    | inr none_there ↦ unformat_plain (stringify w) none_there
    | inl there ↦
        let first : back.words 0 ≡ 0x53616c74 = ground (arith, ==_iff (back.words 0) 0x53616c74) in
        let second : back.words 1 ≡ 0x65645f5f = ground (arith, ==_iff (back.words 1) 0x65645f5f) in
        let (_, clear, size) = parsed-AreWords w in
        let enough = header_size back w.sig_bytes clear second in
        absurd (
          plain (
            ap (take 8) (sym bytes-back)
            ∙ take_eight back (omega (arith, size))
            ∙ header_bytes back first second))
  ]

-- A ciphertext and its salt, written and read again.
abbrev pub read_again : (w salt : WordArray) → Params
read_again w salt = unformat (format (record { ciphertext = w; salt = some salt }))

module _ (w salt : WordArray) (ws : AreWords w.words) (salts : AreWords salt.words)
    (eight : salt.sig_bytes ≡ 8) where
  abbrev header : WordArray
  header = concat salted salt

  header-AreWords : AreWords header.words
  header-AreWords = concat-AreWords salted salt salted-AreWords salts

  abbrev whole : WordArray
  whole = concat header w

  whole-AreWords : AreWords whole.words
  whole-AreWords = concat-AreWords header w header-AreWords ws

  abbrev read : WordArray
  read = parse (stringify whole)

  sig_bytes-whole : whole.sig_bytes ≡ 8 + (8 + w.sig_bytes)
  sig_bytes-whole = sig_bytes-concat header w ∙ omega (arith, sig_bytes-concat salted salt, eight)

  bytes-read :
      bytes_from read.words 0 (8 + (8 + w.sig_bytes)) ≡ bytes salted ++ (bytes salt ++ bytes w)
  bytes-read =
      let (_, _, size) = parsed-AreWords whole in
      ap (bytes_from read.words 0) (sym (size ∙ sig_bytes-whole))
      ∙ (base64_parse-stringify whole whole-AreWords).0
      ∙ bytes-concat header w header-AreWords
      ∙ ap (λ b. b ++ bytes w) (bytes-concat salted salt salted-AreWords)
      ∙ append_assoc (bytes salted) (bytes salt) (bytes w)

  salt_size : length (bytes salt) ≡ 8
  salt_size = length-bytes_from salt.words 0 salt.sig_bytes ∙ eight

  abbrev IsReadIn : Type 0
  IsReadIn =
      (bytes_from read.words 0 8 ≡ bytes salted)
      × (bytes_from read.words 8 8 ≡ bytes salt)
      × (bytes_from read.words 16 w.sig_bytes ≡ bytes w)

  parts : IsReadIn
  unfolding bytes_from
  parts =
      let (front, rest) =
        bytes_from_cut read.words 0 8 (8 + w.sig_bytes) (bytes salted) (bytes salt ++ bytes w) refl
          bytes-read in
      let (mid, last) =
        bytes_from_cut read.words 8 8 w.sig_bytes (bytes salt) (bytes w) salt_size rest in
      (front, mid, last)

  header_there : has_header read ≡ true
  header_there =
      let (kept, _, _) = parsed-AreWords whole in
      let at =
        words-of_bytes (record { words = read.words; sig_bytes = 8 }) salted kept salted-AreWords
          parts.0 in
      rw (at 0 (omega arith), at 1 (omega arith)) refl

  abbrev as_eight : Words → WordArray
  as_eight words = record { words = words; sig_bytes = 8 }

  salt_back :
      ◌≡◌ {A = WordArray}
        (record { words = truncate (λ i. read.words (2 + i)) 2; sig_bytes = 8 })
        (record { words = truncate salt.words 2; sig_bytes = 8 })
  salt_back =
      let (kept, _, _) = parsed-AreWords whole in
      let at =
        words-of_bytes (record { words = λ i. read.words (2 + i); sig_bytes = 8 }) salt
          (λ i. kept (2 + i)) salts (bytes_from-shifted read.words 2 8 ∙ parts.1) in
      ap (λ (f : Words). as_eight f)
        (fun_ext (λ i. elim (Bool-cases (ltb i 2)) [
          | inl low ↦ rw low (at i (ground arith))
          | inr high ↦ rw high refl
        ]))

  -- A ciphertext and a salt of eight bytes that are written as text are read again: the two words
  -- of the salt, and the bytes of the ciphertext, whatever it begins with, where both hold words
  -- of 32 bits.
  pub unformat-format_salted :
      ((read_again w salt).salt ≡ some (record { words = truncate salt.words 2; sig_bytes = 8 }))
      × (bytes (read_again w salt).ciphertext ≡ bytes w)
      × AreWords (read_again w salt).ciphertext.words
  unfolding format
  unformat-format_salted =
      let (kept, _, size) = parsed-AreWords whole in
      let left : read.sig_bytes - 16 ≡ w.sig_bytes = omega (arith, size, sig_bytes-whole) in
      rw (unformat_salted (stringify whole) header_there) (
        ap some salt_back,
        rw left (bytes_from-shifted read.words 4 w.sig_bytes ∙ parts.2),
        (λ i. kept (4 + i)),
      )
