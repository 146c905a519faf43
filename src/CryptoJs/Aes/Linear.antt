-- ===== src/CryptoJs/Aes/Linear.antt =====
-- The inverse of "mix columns" goes through exclusive or.
use Prim.Native.Nat.{bit_xor}
use moa_crypto.Common.{◌≡◌, sym, ◌∙◌, ℕ, ◌+◌, ◌*◌, ◌/◌, ◌%◌, ◌<◌, arith}
use mathlib.Core.Path.{ap₂}
use moa_crypto.Common.Bits.{bit_xor-lt}
use moa_crypto.CryptoJs.Digits.{shift}
use moa_crypto.CryptoJs.Xor.{bit_xor-shift}
use moa_crypto.Common.Xor.{bit_xor_exchange}
use moa_crypto.CryptoJs.Aes.Checks.{column, column-digits, column-high, column-low}

two_digits :
    (h l g m : ℕ)
    → l < 16
    → m < 16
    → bit_xor (16 * h + l) (16 * g + m) ≡ 16 * bit_xor h g + bit_xor l m
unfolding shift
two_digits h l g m ls ms =
    let e : shift 4 h ≡ 16 * h = omega arith in
    let f : shift 4 g ≡ 16 * g = omega arith in
    let i : shift 4 (bit_xor h g) ≡ 16 * bit_xor h g = omega arith in
    rw (← e, ← f, ← i) (bit_xor-shift 4 h l g m (omega arith) (omega arith))

pub column-bit_xor :
    (k x y : ℕ)
    → k < 4
    → x < 256
    → y < 256
    → column k (bit_xor x y) ≡ bit_xor (column k x) (column k y)
column-bit_xor k x y ks xs ys =
    by_digits (x / 16) (x % 16) (y / 16) (y % 16) (omega arith) (omega arith) (omega arith)
      (omega arith) (omega arith) (omega arith)
  where
    by_digits :
        (h l g m : ℕ)
        → h < 16
        → l < 16
        → g < 16
        → m < 16
        → x ≡ 16 * h + l
        → y ≡ 16 * g + m
        → column k (bit_xor x y) ≡ bit_xor (column k x) (column k y)
    by_digits h l g m hs ls gs ms e f =
        rw (e, f, two_digits h l g m ls ms)
          (column-digits k (bit_xor h g) (bit_xor l m) ks (bit_xor-lt 4 h g hs gs)
              (bit_xor-lt 4 l m ls ms)
            ∙ ap₂ bit_xor (column-high k h g ks hs gs) (column-low k l m ks ls ms)
            ∙ bit_xor_exchange (column k (16 * h)) (column k (16 * g)) (column k l) (column k m)
            ∙ sym (ap₂ bit_xor (column-digits k h l ks hs ls) (column-digits k g m ks gs ms)))
