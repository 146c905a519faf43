-- ===== src/CryptoJs/Octets.antt =====
-- A word array up to its bytes: the array that holds a list of bytes and nothing else, and that the
-- encoders write every array as they write that one.
use mathlib.Core.Path.{ap₂, fun_ext, subst}
use mathlib.Core.HLevel.{Σ_prop_path}
use native.Mathlib.Bridge.{le_prop}
use moa_crypto.Common.{
  ◌≡◌, refl, ◌∙◌, sym, ap, ℕ, ◌+◌, ◌*◌, ◌/◌, ◌%◌, ◌≤◌, ◌<◌, arith, length, List, [], ◌∷◌, All, ltb,
  Bool-cases, inl, inr,
}
use moa_crypto.Text.{Text}
use moa_crypto.CryptoJs.{Words, WordArray, no_words, byte_of, byte_at, bytes}
use moa_crypto.CryptoJs.Fill.{AreWords, IsClear}
use moa_crypto.CryptoJs.Bytes.{
  IsByte, fill, fill_lem, no_words-AreWords, no_words-IsClear, bytes_from-IsByte,
}
use moa_crypto.CryptoJs.Join.{clamp}
use moa_crypto.CryptoJs.Clamp.{bytes-clamp}
use moa_crypto.CryptoJs.Append.{byte_at-of_bytes, word_of_bytes, sig_bytes-of_bytes}
use moa_crypto.CryptoJs.Base64.{stringify, padded, base64_chars}

abbrev pub Octets : Type 0
Octets = (bs : List ℕ) × All IsByte bs

IsBytes-prop : (bs : List ℕ) → IsProp (All IsByte bs)
IsBytes-prop [] h k = refl
IsBytes-prop (b ∷ bs) (h, hs) (k, ks) = ap₂ (λ p q. (p, q)) (le_prop h k) (IsBytes-prop bs hs ks)

pub octets_eq : (v w : Octets) → v.0 ≡ w.0 → v ≡ w
octets_eq v w e = Σ_prop_path (λ bs. IsBytes-prop bs) e

-- The array of some bytes.
abbrev pub of_octets : Octets → WordArray
of_octets v = record { words = fill no_words 0 v.0; sig_bytes = length v.0 }

-- The bytes of an array.
abbrev pub to_octets : WordArray → Octets
to_octets w = (bytes w, bytes_from-IsByte w.words 0 w.sig_bytes)

pub of_octets_lem :
    (v : Octets)
    → AreWords (of_octets v).words
      × IsClear (of_octets v).words (length v.0)
      × (bytes (of_octets v) ≡ v.0)
of_octets_lem v =
    let (kept, clear, _, back) = fill_lem no_words 0 v.0 no_words-AreWords no_words-IsClear v.1 in
    (kept, (λ i h. clear i (omega (arith, h))), back)

-- Two arrays of 32-bit words that are clear behind their bytes are the same where these are.
pub same_words :
    (v w : WordArray)
    → AreWords v.words
    → AreWords w.words
    → IsClear v.words v.sig_bytes
    → IsClear w.words w.sig_bytes
    → bytes v ≡ bytes w
    → v ≡ w
same_words v w vs ws cv cw e = ap₂ (λ f n. as_array f n) (fun_ext word) size
  where
    as_array : Words → ℕ → WordArray
    as_array f n = record { words = f; sig_bytes = n }

    size : v.sig_bytes ≡ w.sig_bytes
    size = sig_bytes-of_bytes v w e

    byte : (i : ℕ) → byte_at v.words i ≡ byte_at w.words i
    byte i = elim (Bool-cases (ltb i w.sig_bytes)) [
      | inl here ↦ byte_at-of_bytes v w e i (ground arith)
      | inr behind ↦
          let h : w.sig_bytes ≤ i = ground arith in cv i (omega (arith, size)) ∙ sym (cw i h)
    ]

    at : (j k : ℕ) → k < 4 → byte_of (v.words j) k ≡ byte_of (w.words j) k
    at j k l =
        let place : (j * 4 + k) / 4 ≡ j = omega arith in
        let rest : (j * 4 + k) % 4 ≡ k = omega arith in
        let same = byte (j * 4 + k) in rw (place, rest) at same

    word : (j : ℕ) → v.words j ≡ w.words j
    word j =
        word_of_bytes (v.words j) (w.words j) (vs j) (ws j) (at j 0 (omega arith))
          (at j 1 (omega arith)) (at j 2 (omega arith)) (at j 3 (omega arith))

written : WordArray → Text
written w = padded (base64_chars w.words 0 w.sig_bytes)

stringify-written : (w : WordArray) → stringify w ≡ written (clamp w)
unfolding stringify clamp written
stringify-written w = refl

sig_bytes-clamp : (w : WordArray) → (clamp w).sig_bytes ≡ w.sig_bytes
unfolding clamp
sig_bytes-clamp w = refl

-- Base64 writes two arrays of 32-bit words alike where they have the same bytes.
pub stringify_same :
    (v w : WordArray)
    → AreWords v.words
    → AreWords w.words
    → bytes v ≡ bytes w
    → stringify v ≡ stringify w
stringify_same v w vs ws e =
    let (vb, vc, va) = bytes-clamp v vs in
    let (wb, wc, wa) = bytes-clamp w ws in
    stringify-written v
    ∙ ap written (
        same_words (clamp v) (clamp w) va wa
          (subst (IsClear (clamp v).words) (sym (sig_bytes-clamp v)) vc)
          (subst (IsClear (clamp w).words) (sym (sig_bytes-clamp w)) wc) (vb ∙ e ∙ sym wb))
    ∙ sym (stringify-written w)
