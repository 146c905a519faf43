-- ===== src/CryptoJs/Concat.antt =====
-- WordArray.concat joins the bytes, whether it copies words or bytes.
use moa_crypto.Common.{
  ◌≡◌, refl, ◌∙◌, ℕ, zero, suc, ◌+◌, ◌/◌, ◌%◌, ◌<◌, arith, true, false, ◌==◌, ==_iff, ◌∷◌, ◌++◌,
  Bool-cases, inl, inr,
}
use mathlib.Core.Path.{ap₂, subst}
use moa_crypto.CryptoJs.{Words, WordArray, set, byte_at, put_byte, bytes_from, bytes}
use moa_crypto.CryptoJs.Fill.{AreWords}
use moa_crypto.CryptoJs.Bytes.{
  set_here, set_elsewhere, fill, fill_lem, bytes_from_same, bytes_from_add, bytes_from-IsByte,
  length-bytes_from,
}
use moa_crypto.CryptoJs.Join.{clamp, copy_bytes, copy_words, concat}
use moa_crypto.CryptoJs.Clamp.{clamp-AreWords, clamp-bytes, clamp-IsClear}

pub bytes_from_shift :
    (v w : Words) (n m count : ℕ)
    → ((k : ℕ) → k < count → byte_at v (n + k) ≡ byte_at w (m + k))
    → bytes_from v n count ≡ bytes_from w m count
unfolding bytes_from
bytes_from_shift v w n m zero same = refl
bytes_from_shift v w n m (suc count) same =
    let e : n + 0 ≡ n = omega arith in
    let f : m + 0 ≡ m = omega arith in
    let first : byte_at v (n + 0) ≡ byte_at w (m + 0) = same 0 (omega arith) in
    ap₂ (λ b r. b ∷ r) (rw (e, f) at first)
      (bytes_from_shift v w (suc n) (suc m) count (λ k h.
        let e : n + suc k ≡ suc n + k = omega arith in
        let f : m + suc k ≡ suc m + k = omega arith in
        let next : byte_at v (n + suc k) ≡ byte_at w (m + suc k) = same (suc k) (omega arith) in
        rw (e, f) at next))

pub copy_bytes-fill :
    (that : Words) (s i count : ℕ) (words : Words)
    → copy_bytes that s i count words ≡ fill words (s + i) (bytes_from that i count)
unfolding copy_bytes fill bytes_from
copy_bytes-fill that s i zero words = refl
copy_bytes-fill that s i (suc count) words =
    let e : s + suc i ≡ suc (s + i) = omega arith in
    subst
      (λ n.
        copy_bytes that s (suc i) count (put_byte words (s + i) (byte_at that i))
        ≡ fill (put_byte words (s + i) (byte_at that i)) n (bytes_from that (suc i) count))
      e (copy_bytes-fill that s (suc i) count (put_byte words (s + i) (byte_at that i)))

pub copy_words-below :
    (that : Words) (s i rounds : ℕ) (words : Words) (p : ℕ)
    → p < (s + i) / 4
    → copy_words that s i rounds words p ≡ words p
unfolding copy_words
copy_words-below that s i zero words p h = refl
copy_words-below that s i (suc rounds) words p h =
    copy_words-below that s (i + 4) rounds (set words ((s + i) / 4) (that (i / 4))) p (omega arith)
    ∙ set_elsewhere words ((s + i) / 4) (that (i / 4)) p (λ e. omega arith)

pub copy_words-at :
    (that : Words) (s i rounds : ℕ) (words : Words) (j : ℕ)
    → j < rounds
    → copy_words that s i rounds words ((s + i) / 4 + j) ≡ that (i / 4 + j)
unfolding copy_words
copy_words-at that s i zero words j h = absurd (omega arith)
copy_words-at that s i (suc rounds) words zero h =
    let e : (s + i) / 4 + 0 ≡ (s + i) / 4 = omega arith in
    let f : i / 4 + 0 ≡ i / 4 = omega arith in
    rw (e, f)
      (copy_words-below that s (i + 4) rounds (set words ((s + i) / 4) (that (i / 4))) ((s + i) / 4)
          (omega arith)
        ∙ set_here words ((s + i) / 4) (that (i / 4)))
copy_words-at that s i (suc rounds) words (suc j) h =
    let e : (s + i) / 4 + suc j ≡ (s + (i + 4)) / 4 + j = omega arith in
    let f : i / 4 + suc j ≡ (i + 4) / 4 + j = omega arith in
    rw (e, f)
      (copy_words-at that s (i + 4) rounds (set words ((s + i) / 4) (that (i / 4))) j (omega arith))

module _ (v w : WordArray) where
  abbrev by_words : WordArray
  by_words = record {
    words = copy_words w.words v.sig_bytes 0 ((w.sig_bytes + 3) / 4) (clamp v).words;
    sig_bytes = v.sig_bytes + w.sig_bytes;
  }

  abbrev by_bytes : WordArray
  by_bytes = record {
    words = copy_bytes w.words v.sig_bytes 0 w.sig_bytes (clamp v).words;
    sig_bytes = v.sig_bytes + w.sig_bytes;
  }

  pub concat-by_words : (v.sig_bytes % 4 == 0) ≡ true → concat v w ≡ by_words
  unfolding concat
  concat-by_words e = rw e refl

  pub concat-by_bytes : (v.sig_bytes % 4 == 0) ≡ false → concat v w ≡ by_bytes
  unfolding concat
  concat-by_bytes e = rw e refl

  joined :
      (words : Words)
      → ((i : ℕ) → i < v.sig_bytes → byte_at words i ≡ byte_at v.words i)
      → bytes_from words v.sig_bytes w.sig_bytes ≡ bytes w
      → bytes_from words 0 (v.sig_bytes + w.sig_bytes) ≡ bytes v ++ bytes w
  joined words before after =
      let e : 0 + v.sig_bytes ≡ v.sig_bytes = omega arith in
      bytes_from_add words 0 v.sig_bytes w.sig_bytes
      ∙ rw e (
          ap₂ ◌++◌ (bytes_from_same words v.words 0 v.sig_bytes (λ i le h. before i (omega arith)))
            after)

  module _ (vs : AreWords v.words) where
    bytes-by_words : v.sig_bytes % 4 ≡ 0 → bytes by_words ≡ bytes v ++ bytes w
    bytes-by_words even =
        joined by_words.words
          (λ i h.
            let same =
              copy_words-below w.words v.sig_bytes 0 ((w.sig_bytes + 3) / 4) (clamp v).words (i / 4)
                (omega arith) in
            rw same (clamp-bytes v vs i h))
          (bytes_from_shift by_words.words w.words v.sig_bytes 0 w.sig_bytes (λ k h.
            let place : (v.sig_bytes + k) / 4 ≡ (v.sig_bytes + 0) / 4 + k / 4 = omega arith in
            let rest : (v.sig_bytes + k) % 4 ≡ k % 4 = omega arith in
            let from : (0 + k) / 4 ≡ 0 / 4 + k / 4 = omega arith in
            let from_rest : (0 + k) % 4 ≡ k % 4 = omega arith in
            rw
              (
                place,
                rest,
                from,
                from_rest,
                copy_words-at w.words v.sig_bytes 0 ((w.sig_bytes + 3) / 4) (clamp v).words (k / 4)
                    (omega arith),
              )
              refl))

    bytes-by_bytes : bytes by_bytes ≡ bytes v ++ bytes w
    bytes-by_bytes =
        let e : v.sig_bytes + 0 ≡ v.sig_bytes = omega arith in
        let copied = copy_bytes-fill w.words v.sig_bytes 0 w.sig_bytes (clamp v).words in
        let (_, _, below, back) =
          fill_lem (clamp v).words v.sig_bytes (bytes w) (clamp-AreWords v vs) (clamp-IsClear v vs)
            (bytes_from-IsByte w.words 0 w.sig_bytes) in
        rw (copied, e)
          (joined (fill (clamp v).words v.sig_bytes (bytes w))
            (λ i h. below i h ∙ clamp-bytes v vs i h)
            (rw (length-bytes_from w.words 0 w.sig_bytes) at back))

    -- Joining appends the bytes of one array to those of another, where the first holds words of
    -- 32 bits.
    pub bytes-concat : bytes (concat v w) ≡ bytes v ++ bytes w
    bytes-concat = elim (Bool-cases (v.sig_bytes % 4 == 0)) [
      | inl even ↦ rw (concat-by_words even) (bytes-by_words ((==_iff (v.sig_bytes % 4) 0).0 even))
      | inr odd ↦ rw (concat-by_bytes odd) bytes-by_bytes
    ]
