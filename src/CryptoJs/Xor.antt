-- ===== src/CryptoJs/Xor.antt =====
-- Exclusive or works digit by digit, and so byte by byte.
use Prim.Native.Nat.{bit_xor}
use native.Mathlib.Nat.{div-one}
use mathlib.Core.Path.{ap₂}
use moa_crypto.Common.{◌≡◌, refl, sym, ◌∙◌, ℕ, zero, suc, ◌+◌, ◌*◌, ◌/◌, ◌%◌, ◌<◌, arith}
use moa_crypto.Common.Xor.{bit_xor-step, half-bit_xor}
use moa_crypto.Common.Bits.{bit_xor-lt}
use moa_crypto.CryptoJs.{byte_of}
use moa_crypto.CryptoJs.Digits.{shift}
use moa_crypto.CryptoJs.Fill.{below_four}

pub bit_xor-shift :
    (m hi lo hi' lo' : ℕ)
    → lo < shift m 1
    → lo' < shift m 1
    → bit_xor (shift m hi + lo) (shift m hi' + lo') ≡ shift m (bit_xor hi hi') + bit_xor lo lo'
unfolding shift
bit_xor-shift zero hi lo hi' lo' l l' =
    let e : lo ≡ 0 = omega arith in
    let f : lo' ≡ 0 = omega arith in
    let g : hi + 0 ≡ hi = omega arith in
    let h : hi' + 0 ≡ hi' = omega arith in rw (e, f, g, h) (omega arith)
bit_xor-shift (suc m) hi lo hi' lo' l l' =
    let a : (2 * shift m hi + lo) / 2 ≡ shift m hi + lo / 2 = omega arith in
    let b : (2 * shift m hi' + lo') / 2 ≡ shift m hi' + lo' / 2 = omega arith in
    let c : (2 * shift m hi + lo) % 2 ≡ lo % 2 = omega arith in
    let d : (2 * shift m hi' + lo') % 2 ≡ lo' % 2 = omega arith in
    let whole = bit_xor-step (2 * shift m hi + lo) (2 * shift m hi' + lo') in
    let whole' = rw (a, b, c, d) at whole in
    omega (
      arith,
      whole',
      bit_xor-step lo lo',
      bit_xor-shift m hi (lo / 2) hi' (lo' / 2) (omega arith) (omega arith),
    )

-- A number without its lowest digits, one at a time.
unfoldable halved : ℕ → ℕ → ℕ
halved zero a = a
halved (suc s) a = halved s (a / 2)

halved-bit_xor : (s a b : ℕ) → halved s (bit_xor a b) ≡ bit_xor (halved s a) (halved s b)
unfolding halved
halved-bit_xor zero a b = refl
halved-bit_xor (suc s) a b = rw (half-bit_xor a b) (halved-bit_xor s (a / 2) (b / 2))

-- Eight digits at once.
halved_eight : (a : ℕ) → halved 8 a ≡ a / 256
unfolding halved
halved_eight a = omega arith

next_byte : (a b : ℕ) → bit_xor a b / 256 ≡ bit_xor (a / 256) (b / 256)
next_byte a b =
    sym (halved_eight (bit_xor a b))
    ∙ halved-bit_xor 8 a b
    ∙ ap₂ bit_xor (halved_eight a) (halved_eight b)

last_byte : (a b : ℕ) → bit_xor a b % 256 ≡ bit_xor (a % 256) (b % 256)
unfolding shift
last_byte a b =
    let e : shift 8 (a / 256) + a % 256 ≡ a = omega arith in
    let f : shift 8 (b / 256) + b % 256 ≡ b = omega arith in
    let split =
      bit_xor-shift 8 (a / 256) (a % 256) (b / 256) (b % 256) (omega arith) (omega arith) in
    let split' = rw (e, f) at split in
    omega (arith, split', bit_xor-lt 8 (a % 256) (b % 256) (omega arith) (omega arith))

by_bytes : (a : ℕ) → (a / 65536 ≡ a / 256 / 256) × (a / 16777216 ≡ a / 256 / 256 / 256)
by_bytes a = (omega arith, omega arith)

-- Each byte of an exclusive or is that of the two bytes.
pub byte_of-bit_xor :
    (a b k : ℕ) → k < 4 → byte_of (bit_xor a b) k ≡ bit_xor (byte_of a k) (byte_of b k)
unfolding byte_of
byte_of-bit_xor a b =
    below_four (λ k. byte_of (bit_xor a b) k ≡ bit_xor (byte_of a k) (byte_of b k))
      (rw
        (
          (by_bytes (bit_xor a b)).1,
          (by_bytes a).1,
          (by_bytes b).1,
          next_byte,
          next_byte,
          next_byte,
        )
        (last_byte _ _))
      (rw ((by_bytes (bit_xor a b)).0, (by_bytes a).0, (by_bytes b).0, next_byte, next_byte)
        (last_byte _ _))
      (rw next_byte (last_byte _ _)) (rw (div-one, div-one, div-one) (last_byte a b))
