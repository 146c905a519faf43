-- ===== src/CryptoJs/Bytes.antt =====
-- The bytes of a word array, and a list of bytes written into one from an index on.
use moa_crypto.Common.{
  ◌≡◌, ◌≢◌, refl, ◌∙◌, ap, ℕ, zero, suc, ◌+◌, ◌*◌, ◌/◌, ◌%◌, ◌-◌, ◌^◌, ◌≤◌, ◌<◌, arith, List, [],
  ◌∷◌, ◌++◌, length, All, ◌==◌, ==_iff, Bool-cases, inl, inr,
}
use mathlib.Core.Path.{ap₂}
use native.Mathlib.Nat.{zero-div}
use moa_crypto.CryptoJs.{Words, no_words, set, byte_of, byte_at, or_byte, put_byte, bytes_from}
use moa_crypto.CryptoJs.Fill.{AreWords, IsClear, OneMore, one_more}

abbrev pub IsByte : ℕ → Type 0
IsByte b = b < 256

pub set_here : (words : Words) (place word : ℕ) → set words place word place ≡ word
set_here words place word = rw ((==_iff place place).1 refl) refl

pub set_elsewhere :
    (words : Words) (place word i : ℕ) → i ≢ place → set words place word i ≡ words i
set_elsewhere words place word i ne = elim (Bool-cases (i == place)) [
  | inl same ↦ absurd (ne ((==_iff i place).0 same))
  | inr other ↦ rw other refl
]

pub zero-byte_of : (k : ℕ) → byte_of 0 k ≡ 0
unfolding byte_of
zero-byte_of k = rw (zero-div (2 ^ (24 - k * 8))) refl

module _ (words : Words) (n byte : ℕ) (w : AreWords words) (clear : IsClear words n)
    (b : IsByte byte) where
  more : OneMore (words (n / 4)) byte (n % 4) (or_byte (words (n / 4)) byte (n % 4))
  more = one_more (words (n / 4)) byte (w (n / 4)) b (n % 4) (omega arith) (λ k h le.
      let place : (n / 4 * 4 + k) / 4 ≡ n / 4 = omega arith in
      let rest : (n / 4 * 4 + k) % 4 ≡ k = omega arith in
      let cleared : byte_at words (n / 4 * 4 + k) ≡ 0 = clear (n / 4 * 4 + k) (omega arith) in
      rw (place, rest) at cleared)

  pub put_byte-AreWords : AreWords (put_byte words n byte)
  unfolding put_byte
  put_byte-AreWords i = elim (Bool-cases (i == n / 4)) [
    | inl same ↦ rw same more.in_range
    | inr other ↦ rw other (w i)
  ]

  pub put_byte-here : byte_at (put_byte words n byte) n ≡ byte
  unfolding put_byte
  put_byte-here = rw (set_here words (n / 4) (or_byte (words (n / 4)) byte (n % 4))) more.here

  pub put_byte-elsewhere : (i : ℕ) → i ≢ n → byte_at (put_byte words n byte) i ≡ byte_at words i
  unfolding put_byte
  put_byte-elsewhere i ne = elim (Bool-cases (i / 4 == n / 4)) [
    | inl same ↦
        let place : i / 4 ≡ n / 4 = (==_iff (i / 4) (n / 4)).0 same in
        rw (same, place) (more.elsewhere (i % 4) (omega arith) (λ e. ne (omega arith)))
    | inr other ↦ rw other refl
  ]

  pub put_byte-IsClear : IsClear (put_byte words n byte) (suc n)
  put_byte-IsClear i le = put_byte-elsewhere i (λ e. omega arith) ∙ clear i (omega arith)

-- A list of bytes, one after the other.
unfoldable pub fill : Words → ℕ → List ℕ → Words
fill words n [] = words
fill words n (byte ∷ rest) = fill (put_byte words n byte) (suc n) rest

pub bytes_from_same :
    (v w : Words) (n count : ℕ)
    → ((i : ℕ) → n ≤ i → i < n + count → byte_at v i ≡ byte_at w i)
    → bytes_from v n count ≡ bytes_from w n count
unfolding bytes_from
bytes_from_same v w n zero same = refl
bytes_from_same v w n (suc count) same =
    ap₂ (λ b r. b ∷ r) (same n (omega arith) (omega arith))
      (bytes_from_same v w (suc n) count (λ i p q. same i (omega arith) (omega arith)))

pub bytes_from_add :
    (w : Words) (n a b : ℕ) → bytes_from w n (a + b) ≡ bytes_from w n a ++ bytes_from w (n + a) b
unfolding bytes_from
bytes_from_add w n zero b =
    let e : 0 + b ≡ b = omega arith in let f : n + 0 ≡ n = omega arith in rw (e, f) refl
bytes_from_add w n (suc a) b =
    let e : suc a + b ≡ suc (a + b) = omega arith in
    let f : n + suc a ≡ suc n + a = omega arith in
    rw (e, f) (ap (λ r. byte_at w n ∷ r) (bytes_from_add w (suc n) a b))

pub fill_lem :
    (words : Words) (n : ℕ) (bs : List ℕ)
    → AreWords words
    → IsClear words n
    → All IsByte bs
    → AreWords (fill words n bs)
      × IsClear (fill words n bs) (n + length bs)
      × ((i : ℕ) → i < n → byte_at (fill words n bs) i ≡ byte_at words i)
      × (bytes_from (fill words n bs) n (length bs) ≡ bs)
unfolding fill bytes_from
fill_lem words n [] w clear h = (w, (λ i le. clear i (omega arith)), (λ i lt. refl), refl)
fill_lem words n (byte ∷ bs) w clear (b, h) =
    let (w', clear', below, back) =
      fill_lem (put_byte words n byte) (suc n) bs (put_byte-AreWords words n byte w clear b)
        (put_byte-IsClear words n byte w clear b) h in
    (
      w',
      (λ i le. clear' i (omega arith)),
      (λ i lt.
          below i (omega arith) ∙ put_byte-elsewhere words n byte w clear b i (λ e. omega arith)),
      ap₂ (λ a r. a ∷ r) (below n (omega arith) ∙ put_byte-here words n byte w clear b) back,
    )

pub no_words-AreWords : AreWords no_words
no_words-AreWords i = omega arith

pub no_words-IsClear : IsClear no_words 0
unfolding byte_of
no_words-IsClear i h = omega arith

pub bytes_from-IsByte : (words : Words) (i count : ℕ) → All IsByte (bytes_from words i count)
unfolding bytes_from byte_of
bytes_from-IsByte words i zero = tt
bytes_from-IsByte words i (suc count) = (omega arith, bytes_from-IsByte words (suc i) count)

pub length-bytes_from : (words : Words) (i count : ℕ) → length (bytes_from words i count) ≡ count
unfolding bytes_from
length-bytes_from words i zero = refl
length-bytes_from words i (suc count) = ap suc (length-bytes_from words (suc i) count)
