-- ===== src/CryptoJs/Base64/RoundTrip.antt =====
-- Parsing what Base64.stringify writes gives the bytes back, whatever their number.
use moa_crypto.Common.{
  holds_below, ◌≡◌, ◌≢◌, true, All-append, refl, ◌∙◌, ap, ℕ, zero, suc, ◌+◌, ◌*◌, ◌%◌, ◌<◌, arith,
  [], ◌∷◌, ◌++◌, length, take-append, Bool-cases, inl, inr, ◌==◌,
}
use moa_crypto.Text.{Text, codes, index_of}
use moa_crypto.Text.Laws.{Free, index_of-unit, index_of-unit_none}
use moa_crypto.CryptoJs.{Words, byte_at, byte_of, bytes_from, bytes, WordArray, no_words}
use moa_crypto.CryptoJs.Fill.{AreWords, IsClear}
use moa_crypto.CryptoJs.Bytes.{
  fill, fill_lem, no_words-AreWords, no_words-IsClear, bytes_from-IsByte, length-bytes_from,
}
use moa_crypto.CryptoJs.Join.{clamp}
use moa_crypto.CryptoJs.Clamp.{bytes-clamp}
use moa_crypto.CryptoJs.Base64.{
  triplet_at, chars_of, base64_chars, parse_loop, until, padded, parse, stringify,
}
use moa_crypto.CryptoJs.Base64.Chars.{triplet_at_lem, is_foreign, base64_chars-Free}
use moa_crypto.CryptoJs.Base64.Groups.{group_one, group_two, group_three, after_three}

byte_at-below : (words : Words) (i : ℕ) → byte_at words i < 256
unfolding byte_of
byte_at-below words i = omega arith

whole_at :
    (v : Words) (j : ℕ)
    → triplet_at v j ≡ byte_at v j * 65536 + byte_at v (suc j) * 256 + byte_at v (suc (suc j))
whole_at v j =
    let e : j + 1 ≡ suc j = omega arith in
    let f : j + 2 ≡ suc (suc j) = omega arith in
    let whole = triplet_at_lem v j in rw (e, f) at whole

ended :
    (words : Words) (i before n n' : ℕ)
    → n ≡ n'
    → parse_loop [] i before words n ≡ record { words = words; sig_bytes = n' }
unfolding parse_loop
ended words i before n n' e = rw e refl

-- The loop on the digits of some bytes puts those bytes.
pub parse_loop-base64_chars :
    (v : Words) (j left : ℕ) (words : Words) (n i before : ℕ)
    → AreWords words
    → IsClear words n
    → i % 4 ≡ 0
    → parse_loop (base64_chars v j left) i before words n
      ≡ record { words = fill words n (bytes_from v j left); sig_bytes = n + left }
unfolding base64_chars chars_of bytes_from fill
parse_loop-base64_chars v j zero words n i before w clear even =
    ended words i before n (n + 0) (omega arith)
parse_loop-base64_chars v j (suc zero) words n i before w clear even =
    group_one (triplet_at v j) (byte_at v j) (byte_at v (suc j)) (byte_at v (suc (suc j)))
      (whole_at v j) (byte_at-below v j) (byte_at-below v (suc j)) (byte_at-below v (suc (suc j)))
      words n w clear i before even []
    ∙ ended _ _ _ (suc n) (n + 1) (omega arith)
parse_loop-base64_chars v j (suc (suc zero)) words n i before w clear even =
    group_two (triplet_at v j) (byte_at v j) (byte_at v (suc j)) (byte_at v (suc (suc j)))
      (whole_at v j) (byte_at-below v j) (byte_at-below v (suc j)) (byte_at-below v (suc (suc j)))
      words n w clear i before even []
    ∙ ended _ _ _ (suc (suc n)) (n + 2) (omega arith)
parse_loop-base64_chars v j (suc (suc (suc left))) words n i before w clear even =
    let a = byte_at v j in
    let b = byte_at v (suc j) in
    let c = byte_at v (suc (suc j)) in
    let t = triplet_at v j in
    let e : j + 3 ≡ suc (suc (suc j)) = omega arith in
    let f : n + suc (suc (suc left)) ≡ suc (suc (suc n)) + left = omega arith in
    let (w', clear', _, _) =
      fill_lem words n (a ∷ b ∷ c ∷ []) w clear
        (byte_at-below v j, (byte_at-below v (suc j), (byte_at-below v (suc (suc j)), tt))) in
    rw (e, f)
      (group_three t a b c (whole_at v j) (byte_at-below v j) (byte_at-below v (suc j))
          (byte_at-below v (suc (suc j))) words n w clear i before even
          (base64_chars v (suc (suc (suc j))) left)
        ∙ parse_loop-base64_chars v (suc (suc (suc j))) left
            (after_three t a b c (whole_at v j) (byte_at-below v j) (byte_at-below v (suc j))
              (byte_at-below v (suc (suc j))) words n w clear i before even)
            (suc (suc (suc n))) (suc (suc (suc (suc i)))) _ w' (λ k le. clear' k (omega arith))
            (omega arith))

-- The text is cut at its padding.
until-append :
    (t : Text) (r : Text)
    → Free b'=' t
    → until (t ++ b'=' ∷ r) (index_of (t ++ b'=' ∷ r) (codes "=")) ≡ t
until-append t r free = rw (index_of-unit b'=' t r free) (take-append t (b'=' ∷ r) refl)

until-padded : (t : Text) → Free b'=' t → until (padded t) (index_of (padded t) (codes "=")) ≡ t
until-padded t free = elim (Bool-cases (length t % 4 == 0)) [
  | inl whole ↦ rw (whole, index_of-unit_none b'=' t free) refl
  | inr part ↦ elim (Bool-cases (length t % 4 == 3)) [
    | inl three ↦ rw (part, three) (until-append t [] free)
    | inr less ↦ elim (Bool-cases (length t % 4 == 2)) [
      | inl two ↦ rw (part, less, two) (until-append t (codes "=") free)
      | inr one ↦ rw (part, less, one) (until-append t (codes "==") free)
    ]
  ]
]

parse-padded : (t : Text) → Free b'=' t → parse (padded t) ≡ parse_loop t 0 0 no_words 0
unfolding parse
parse-padded t free = ap (λ u. parse_loop u 0 0 no_words 0) (until-padded t free)

padded-Free : (unit : ℕ) (t : Text) → b'=' ≢ unit → Free unit t → Free unit (padded t)
padded-Free unit t ne free = elim (Bool-cases (length t % 4 == 0)) [
  | inl whole ↦ rw whole free
  | inr part ↦ elim (Bool-cases (length t % 4 == 3)) [
    | inl three ↦ rw (part, three) (All-append _ t (codes "=") free (ne, tt))
    | inr less ↦ elim (Bool-cases (length t % 4 == 2)) [
      | inl two ↦ rw (part, less, two) (All-append _ t (codes "==") free (ne, (ne, tt)))
      | inr one ↦ rw (part, less, one) (All-append _ t (codes "===") free (ne, (ne, (ne, tt))))
    ]
  ]
]

module _ (w : WordArray) where
  abbrev text_of : Text
  text_of = base64_chars (clamp w).words 0 w.sig_bytes

  stringify-padded : stringify w ≡ padded text_of
  unfolding stringify
  stringify-padded = refl

  -- A foreign unit other than the padding is not written.
  pub stringify-Free : (unit : ℕ) → is_foreign unit ≡ true → b'=' ≢ unit → Free unit (stringify w)
  stringify-Free unit foreign ne =
      rw stringify-padded
        (padded-Free unit text_of ne (base64_chars-Free unit foreign (clamp w).words 0 w.sig_bytes))

  parse-stringify :
      parse (stringify w)
      ≡ record { words = fill no_words 0 (bytes (clamp w)); sig_bytes = 0 + w.sig_bytes }
  unfolding clamp holds_below
  parse-stringify = rw stringify-padded (
      parse-padded text_of (base64_chars-Free b'=' refl (clamp w).words 0 w.sig_bytes)
      ∙ parse_loop-base64_chars (clamp w).words 0 w.sig_bytes no_words 0 0 0 no_words-AreWords
          no_words-IsClear refl)

  -- The words that parsing fills are in range, and clear behind the bytes.
  pub parsed-AreWords :
      AreWords (parse (stringify w)).words
      × IsClear (parse (stringify w)).words w.sig_bytes
      × ((parse (stringify w)).sig_bytes ≡ w.sig_bytes)
  unfolding clamp
  parsed-AreWords =
      let (kept, clear, _, _) =
        fill_lem no_words 0 (bytes (clamp w)) no_words-AreWords no_words-IsClear
          (bytes_from-IsByte (clamp w).words 0 w.sig_bytes) in
      rw parse-stringify (
        kept,
        (λ i h. clear i (omega (arith, h, length-bytes_from (clamp w).words 0 w.sig_bytes))),
        omega arith,
      )

  -- Parsing what was written gives the bytes of the word array back, whatever their number, where
  -- its words have 32 bits; and no unit of what is written is "$" or "%".
  pub base64_parse-stringify :
      AreWords w.words
      → (bytes (parse (stringify w)) ≡ bytes w) × Free b'$' (stringify w) × Free b'%' (stringify w)
  unfolding holds_below
  base64_parse-stringify words = (
    rw parse-stringify back,
    stringify-Free b'$' refl (omega arith),
    stringify-Free b'%' refl (omega arith),
  )
    where
      same : bytes (clamp w) ≡ bytes w
      same = (bytes-clamp w words).0

      back : bytes_from (fill no_words 0 (bytes (clamp w))) 0 (0 + w.sig_bytes) ≡ bytes w
      back =
          let (_, _, _, filled) =
            fill_lem no_words 0 (bytes w) no_words-AreWords no_words-IsClear
              (bytes_from-IsByte w.words 0 w.sig_bytes) in
          let size : length (bytes w) ≡ 0 + w.sig_bytes =
            length-bytes_from w.words 0 w.sig_bytes ∙ omega arith in
          rw same (rw size at filled)
