-- ===== src/CryptoJs/Aes/Columns.antt =====
-- What the rounds of AES make of a word of the state, and how the inverse takes it back.
use Prim.Native.Nat.{bit_xor, bit_or}
use moa_crypto.Common.{◌≡◌, refl, sym, ap, ◌∙◌, ℕ, ◌+◌, ◌*◌, ◌/◌, ◌%◌, ◌^◌, ◌<◌, arith}
use mathlib.Core.Path.{ap₂}
use native.Mathlib.Nat.{div-one}
use moa_crypto.Common.Bits.{bit_xor-lt, bit_xor-zero}
use moa_crypto.CryptoJs.{byte_of}
use moa_crypto.CryptoJs.Digits.{shift, bit_or-shift}
use moa_crypto.CryptoJs.Xor.{bit_xor-shift, byte_of-bit_xor}
use moa_crypto.Common.Xor.{bit_xor_exchange_four, zero-bit_xor}
use moa_crypto.CryptoJs.AesTables.{tables}
use moa_crypto.CryptoJs.Aes.{mix_bytes, sub_bytes}
use moa_crypto.CryptoJs.Aes.Checks.{
  column, inv_mix, inv_mix-sub_mix_0, inv_mix-sub_mix_1, inv_mix-sub_mix_2, inv_mix-sub_mix_3,
  sub_mix-lt, sbox-lt,
}
use moa_crypto.CryptoJs.Aes.Linear.{column-bit_xor}

shift_24 : (p : ℕ) → shift 24 p ≡ p * 2 ^ 24
unfolding shift
shift_24 p = omega arith

shift_16 : (p : ℕ) → shift 16 p ≡ p * 2 ^ 16
unfolding shift
shift_16 p = omega arith

pub shift_8 : (p : ℕ) → shift 8 p ≡ p * 2 ^ 8
unfolding shift
shift_8 p = omega arith

-- A word that is put together of four bytes.
pub or_bytes :
    (p q r s : ℕ)
    → q < 256
    → r < 256
    → s < 256
    → bit_or (bit_or (bit_or (p * 2 ^ 24) (q * 2 ^ 16)) (r * 2 ^ 8)) s
      ≡ p * 2 ^ 24 + q * 2 ^ 16 + r * 2 ^ 8 + s
unfolding shift
or_bytes p q r s qs rs ss =
    let a = rw (shift_24 p) at (bit_or-shift 24 p (q * 2 ^ 16) (omega arith)) in
    let f : p * 2 ^ 24 + q * 2 ^ 16 ≡ (p * 256 + q) * 2 ^ 16 = omega arith in
    let b =
      rw (shift_16 (p * 256 + q)) at (bit_or-shift 16 (p * 256 + q) (r * 2 ^ 8) (omega arith)) in
    let g : (p * 256 + q) * 2 ^ 16 + r * 2 ^ 8 ≡ ((p * 256 + q) * 256 + r) * 2 ^ 8 = omega arith in
    let c =
      rw (shift_8 ((p * 256 + q) * 256 + r)) at
        (bit_or-shift 8 ((p * 256 + q) * 256 + r) s (omega arith)) in
    rw (a, f, b, g, c) (omega arith)

xor_low : (m p q : ℕ) → q < shift m 1 → shift m 0 ≡ 0 → bit_xor (shift m p) q ≡ shift m p + q
xor_low m p q h none =
    let e : shift m p + 0 ≡ shift m p = omega arith in
    let f : shift m 0 + q ≡ q = omega (arith, none) in
    let found = bit_xor-shift m p 0 0 q (omega arith) h in
    let found' = rw (e, f, bit_xor-zero p, zero-bit_xor q) at found in found'

xor_bytes :
    (p q r s : ℕ)
    → q < 256
    → r < 256
    → s < 256
    → bit_xor (bit_xor (bit_xor (p * 2 ^ 24) (q * 2 ^ 16)) (r * 2 ^ 8)) s
      ≡ p * 2 ^ 24 + q * 2 ^ 16 + r * 2 ^ 8 + s
unfolding shift
xor_bytes p q r s qs rs ss =
    let a = rw (shift_24 p) at (xor_low 24 p (q * 2 ^ 16) (omega arith) (omega arith)) in
    let f : p * 2 ^ 24 + q * 2 ^ 16 ≡ (p * 256 + q) * 2 ^ 16 = omega arith in
    let b =
      rw (shift_16 (p * 256 + q)) at
        (xor_low 16 (p * 256 + q) (r * 2 ^ 8) (omega arith) (omega arith)) in
    let g : (p * 256 + q) * 2 ^ 16 + r * 2 ^ 8 ≡ ((p * 256 + q) * 256 + r) * 2 ^ 8 = omega arith in
    let c =
      rw (shift_8 ((p * 256 + q) * 256 + r)) at
        (xor_low 8 ((p * 256 + q) * 256 + r) s (omega arith) (omega arith)) in
    rw (a, f, b, g, c) (omega arith)

-- The bytes of a word, as the rounds take them.
pub bytes_of :
    (w : ℕ)
    → w < 2 ^ 32
    → (w / 2 ^ 24 ≡ byte_of w 0)
      × (w / 2 ^ 16 % 256 ≡ byte_of w 1)
      × (w / 2 ^ 8 % 256 ≡ byte_of w 2)
      × (w % 256 ≡ byte_of w 3)
unfolding byte_of
bytes_of w h = (omega arith, refl, refl, rw div-one refl)

pub byte_of-lt : (w k : ℕ) → byte_of w k < 256
unfolding byte_of
byte_of-lt w k = omega arith

abbrev pub sum : (p q r s : ℕ) → ℕ
sum p q r s = p * 2 ^ 24 + q * 2 ^ 16 + r * 2 ^ 8 + s

-- The columns at the bytes of a word.
abbrev columns : ℕ → ℕ
columns w =
    bit_xor
      (bit_xor (bit_xor (column 0 (byte_of w 0)) (column 1 (byte_of w 1))) (column 2 (byte_of w 2)))
      (column 3 (byte_of w 3))

inv_mix-columns : (w : ℕ) → w < 2 ^ 32 → inv_mix w ≡ columns w
inv_mix-columns w h = let (a, b, c, d) = bytes_of w h in rw (a, b, c, d) refl

pub inv_mix-bit_xor :
    (v w : ℕ) → v < 2 ^ 32 → w < 2 ^ 32 → inv_mix (bit_xor v w) ≡ bit_xor (inv_mix v) (inv_mix w)
inv_mix-bit_xor v w vs ws =
    inv_mix-columns (bit_xor v w) (bit_xor-lt 32 v w vs ws)
    ∙ rw (at 0 (omega arith), at 1 (omega arith), at 2 (omega arith), at 3 (omega arith))
        (bit_xor_exchange_four _ _ _ _ _ _ _ _)
    ∙ sym (ap₂ bit_xor (inv_mix-columns v vs) (inv_mix-columns w ws))
  where
    at :
        (k : ℕ)
        → k < 4
        → column k (byte_of (bit_xor v w) k)
          ≡ bit_xor (column k (byte_of v k)) (column k (byte_of w k))
    at k h =
        ap (column k) (byte_of-bit_xor v w k h)
        ∙ column-bit_xor k (byte_of v k) (byte_of w k) h (byte_of-lt v k) (byte_of-lt w k)

-- What the tables without "mix columns" make of four bytes.
sub_bytes-sum :
    (a b c d : ℕ)
    → a < 2 ^ 32
    → sub_bytes tables.sbox a b c d
      ≡ sum
          (tables.sbox (a / 2 ^ 24))
          (tables.sbox (b / 2 ^ 16 % 256))
          (tables.sbox (c / 2 ^ 8 % 256))
          (tables.sbox (d % 256))
sub_bytes-sum a b c d h =
    or_bytes (tables.sbox (a / 2 ^ 24)) (tables.sbox (b / 2 ^ 16 % 256))
      (tables.sbox (c / 2 ^ 8 % 256)) (tables.sbox (d % 256)) (sbox-lt _ (omega arith))
      (sbox-lt _ (omega arith)) (sbox-lt _ (omega arith))

-- Its bytes.
pub sub_bytes-at :
    (a b c d : ℕ)
    → a < 2 ^ 32
    → (sub_bytes tables.sbox a b c d / 2 ^ 24 ≡ tables.sbox (a / 2 ^ 24))
      × (sub_bytes tables.sbox a b c d / 2 ^ 16 % 256 ≡ tables.sbox (b / 2 ^ 16 % 256))
      × (sub_bytes tables.sbox a b c d / 2 ^ 8 % 256 ≡ tables.sbox (c / 2 ^ 8 % 256))
      × (sub_bytes tables.sbox a b c d % 256 ≡ tables.sbox (d % 256))
sub_bytes-at a b c d h =
    let p : tables.sbox (a / 2 ^ 24) < 256 = sbox-lt _ (omega arith) in
    let q : tables.sbox (b / 2 ^ 16 % 256) < 256 = sbox-lt _ (omega arith) in
    let r : tables.sbox (c / 2 ^ 8 % 256) < 256 = sbox-lt _ (omega arith) in
    let s : tables.sbox (d % 256) < 256 = sbox-lt _ (omega arith) in
    rw (sub_bytes-sum a b c d h) (omega arith, omega arith, omega arith, omega arith)

pub sub_bytes-lt : (a b c d : ℕ) → a < 2 ^ 32 → sub_bytes tables.sbox a b c d < 2 ^ 32
sub_bytes-lt a b c d h =
    let p : tables.sbox (a / 2 ^ 24) < 256 = sbox-lt _ (omega arith) in
    let q : tables.sbox (b / 2 ^ 16 % 256) < 256 = sbox-lt _ (omega arith) in
    let r : tables.sbox (c / 2 ^ 8 % 256) < 256 = sbox-lt _ (omega arith) in
    let s : tables.sbox (d % 256) < 256 = sbox-lt _ (omega arith) in
    rw (sub_bytes-sum a b c d h) (omega arith)

-- A column of a round.
abbrev pub sub_mix : (a b c d : ℕ) → ℕ
sub_mix = mix_bytes tables.sub_mix_0 tables.sub_mix_1 tables.sub_mix_2 tables.sub_mix_3

module _ (a b c d : ℕ) (h : a < 2 ^ 32) where
  abbrev part_0 : ℕ
  part_0 = tables.sub_mix_0 (a / 2 ^ 24)

  abbrev part_1 : ℕ
  part_1 = tables.sub_mix_1 (b / 2 ^ 16 % 256)

  abbrev part_2 : ℕ
  part_2 = tables.sub_mix_2 (c / 2 ^ 8 % 256)

  abbrev part_3 : ℕ
  part_3 = tables.sub_mix_3 (d % 256)

  part_0-lt : part_0 < 2 ^ 32
  part_0-lt = (sub_mix-lt (a / 2 ^ 24) (omega arith)).0

  part_1-lt : part_1 < 2 ^ 32
  part_1-lt = (sub_mix-lt (b / 2 ^ 16 % 256) (omega arith)).1

  part_2-lt : part_2 < 2 ^ 32
  part_2-lt = (sub_mix-lt (c / 2 ^ 8 % 256) (omega arith)).2

  part_3-lt : part_3 < 2 ^ 32
  part_3-lt = (sub_mix-lt (d % 256) (omega arith)).3

  two-lt : bit_xor part_0 part_1 < 2 ^ 32
  two-lt = bit_xor-lt 32 part_0 part_1 part_0-lt part_1-lt

  three-lt : bit_xor (bit_xor part_0 part_1) part_2 < 2 ^ 32
  three-lt = bit_xor-lt 32 (bit_xor part_0 part_1) part_2 two-lt part_2-lt

  pub sub_mix_word-lt : sub_mix a b c d < 2 ^ 32
  sub_mix_word-lt = bit_xor-lt 32 (bit_xor (bit_xor part_0 part_1) part_2) part_3 three-lt part_3-lt

  -- The inverse of "mix columns" leaves "sub bytes".
  pub inv_mix-sub_mix : inv_mix (sub_mix a b c d) ≡ sub_bytes tables.sbox a b c d
  inv_mix-sub_mix =
      inv_mix-bit_xor (bit_xor (bit_xor part_0 part_1) part_2) part_3 three-lt part_3-lt
      ∙ ap (λ x. bit_xor x (inv_mix part_3))
          (inv_mix-bit_xor (bit_xor part_0 part_1) part_2 two-lt part_2-lt
            ∙ ap (λ x. bit_xor x (inv_mix part_2))
                (inv_mix-bit_xor part_0 part_1 part_0-lt part_1-lt))
      ∙ rw
          (
            inv_mix-sub_mix_0 (a / 2 ^ 24) (omega arith),
            inv_mix-sub_mix_1 (b / 2 ^ 16 % 256) (omega arith),
            inv_mix-sub_mix_2 (c / 2 ^ 8 % 256) (omega arith),
            inv_mix-sub_mix_3 (d % 256) (omega arith),
          )
          (xor_bytes (tables.sbox (a / 2 ^ 24)) (tables.sbox (b / 2 ^ 16 % 256))
            (tables.sbox (c / 2 ^ 8 % 256)) (tables.sbox (d % 256)) (sbox-lt _ (omega arith))
            (sbox-lt _ (omega arith)) (sbox-lt _ (omega arith)))
      ∙ sym (sub_bytes-sum a b c d h)
