-- ===== src/CryptoJs/Digits.antt =====
-- The operators | and & where they take numbers apart or put them together: a number with some low
-- digits clear, and a number that fits there.
use Prim.Native.Nat.{max, min, digits, bit_or, bit_or-bitwise, bit_and, bit_and-bitwise}
use native.Mathlib.Nat.{le_refl}
use moa_crypto.Common.{◌≡◌, refl, sym, ◌∙◌, ℕ, zero, suc, ◌+◌, ◌*◌, ◌/◌, ◌%◌, ◌≤◌, ◌<◌, arith}

-- q << m, one place at a time.
unfoldable pub shift : ℕ → ℕ → ℕ
shift zero q = q
shift (suc m) q = 2 * shift m q

digits-max-zero : (count x : ℕ) → x ≤ count → digits (λ y. y) max count x 0 ≡ x
digits-max-zero zero x c = omega arith
digits-max-zero (suc count) zero c = refl
digits-max-zero (suc count) (suc x) c =
    omega (arith, digits-max-zero count (suc x / 2) (omega arith))

digits-max-shift :
    (m count q x y : ℕ)
    → x ≤ count
    → x ≡ shift m q
    → y < shift m 1
    → digits (λ y. y) max count x y ≡ x + y
unfolding shift
digits-max-shift zero count q x y c e h =
    let none_left : y ≡ 0 = omega arith in rw none_left (omega (arith, digits-max-zero count x c))
digits-max-shift (suc m) zero q x y c e h = omega arith
digits-max-shift (suc m) (suc count) q zero y c e h = omega arith
digits-max-shift (suc m) (suc count) q (suc x) y c e h = omega (
  arith,
  digits-max-shift m count q (suc x / 2) (y / 2) (omega arith) (omega arith) (omega arith),
)

-- A number with m clear digits, and one of m digits.
pub bit_or-shift : (m q y : ℕ) → y < shift m 1 → bit_or (shift m q) y ≡ shift m q + y
bit_or-shift m q y h =
    simp bit_or-bitwise (digits-max-shift m (shift m q) q (shift m q) y (le_refl _) refl h)

digits-max-same :
    (k count q h x : ℕ)
    → x ≤ count
    → x ≡ shift k q + h
    → h < shift k 1
    → digits (λ y. y) max count x h ≡ x
unfolding shift
digits-max-same zero count q h x c e l =
    let none_left : h ≡ 0 = omega arith in rw none_left (digits-max-zero count x c)
digits-max-same (suc k) zero q h x c e l = omega arith
digits-max-same (suc k) (suc count) q h zero c e l = omega arith
digits-max-same (suc k) (suc count) q h (suc x) c e l =
    omega (
      arith,
      digits-max-same k count q (h / 2) (suc x / 2) (omega arith) (omega arith) (omega arith),
    )

shift-zero : (m : ℕ) → shift m 0 ≡ 0
unfolding shift
shift-zero zero = refl
shift-zero (suc m) = omega (arith, shift-zero m)

shift_eq_zero : (m q : ℕ) → shift m q ≡ 0 → q ≡ 0
unfolding shift
shift_eq_zero zero q e = e
shift_eq_zero (suc m) q e = shift_eq_zero m q (omega arith)

-- Where the first number is 0, so is the part of the second that overlaps it.
overlap_zero : (m k q h y z : ℕ) → 0 ≡ shift m (shift k q + h) → y ≡ shift m h + z → y ≡ z
overlap_zero m k q h y z e f =
    let whole = shift_eq_zero m (shift k q + h) (sym e) in
    let none_left : h ≡ 0 = omega arith in f ∙ rw none_left (omega (arith, shift-zero m))

digits-max-overlap :
    (m k count q h x y z : ℕ)
    → x ≤ count
    → x ≡ shift m (shift k q + h)
    → y ≡ shift m h + z
    → z < shift m 1
    → h < shift k 1
    → digits (λ y. y) max count x y ≡ x + z
unfolding shift
digits-max-overlap zero k count q h x y z c e f l g =
    let none_left : z ≡ 0 = omega arith in
    let whole : y ≡ h = omega arith in
    rw (none_left, whole) (omega (arith, digits-max-same k count q h x c e g))
digits-max-overlap (suc m) k zero q h x y z c e f l g =
    let none_left : x ≡ 0 = omega arith in
    omega (arith, overlap_zero (suc m) k q h y z (sym none_left ∙ e) f)
digits-max-overlap (suc m) k (suc count) q h zero y z c e f l g =
    omega (arith, overlap_zero (suc m) k q h y z e f)
digits-max-overlap (suc m) k (suc count) q h (suc x) y z c e f l g = omega (
  arith,
  digits-max-overlap m k count q h (suc x / 2) (y / 2) (z / 2) (omega arith) (omega arith)
      (omega arith) (omega arith) g,
)

-- A number with m clear digits, and one of m digits and k more that the first one has there.
pub bit_or-overlap :
    (m k q h z : ℕ)
    → h < shift k 1
    → z < shift m 1
    → bit_or (shift m (shift k q + h)) (shift m h + z) ≡ shift m (shift k q + h) + z
bit_or-overlap m k q h z g l = simp bit_or-bitwise (
    digits-max-overlap m k (shift m (shift k q + h)) q h (shift m (shift k q + h)) (shift m h + z) z
      (le_refl _) refl refl l g)

-- So many digits, all 1.
unfoldable pub ones : ℕ → ℕ
ones zero = 0
ones (suc k) = 2 * ones k + 1

digits-min-ones :
    (k count x : ℕ) → x ≤ count → x < shift k 1 → digits (λ y. 0) min count x (ones k) ≡ x
unfolding shift ones
digits-min-ones k zero x c h = omega arith
digits-min-ones k (suc count) zero c h = refl
digits-min-ones zero (suc count) (suc x) c h = absurd (omega arith)
digits-min-ones (suc k) (suc count) (suc x) c h =
    let half : (2 * ones k + 1) / 2 ≡ ones k = omega arith in
    let low : (2 * ones k + 1) % 2 ≡ 1 = omega arith in
    rw (half, low) (omega (arith, digits-min-ones k count (suc x / 2) (omega arith) (omega arith)))

digits-min-shift :
    (m k count hi lo x : ℕ)
    → x ≤ count
    → x ≡ shift m hi + lo
    → lo < shift m 1
    → hi < shift k 1
    → digits (λ y. 0) min count x (shift m (ones k)) ≡ shift m hi
unfolding shift
digits-min-shift zero k count hi lo x c e l h =
    let same : x ≡ hi = omega arith in digits-min-ones k count x c (omega arith) ∙ same
digits-min-shift (suc m) k zero hi lo x c e l h = omega arith
digits-min-shift (suc m) k (suc count) hi lo zero c e l h = omega arith
digits-min-shift (suc m) k (suc count) hi lo (suc x) c e l h =
    let half : 2 * shift m (ones k) / 2 ≡ shift m (ones k) = omega arith in
    let low : 2 * shift m (ones k) % 2 ≡ 0 = omega arith in
    rw (half, low)
      (omega (
        arith,
        digits-min-shift m k count hi (lo / 2) (suc x / 2) (omega arith) (omega arith) (omega arith)
            h,
      ))

-- A mask of k ones above m zeros keeps the high digits.
pub bit_and-mask :
    (m k hi lo : ℕ)
    → lo < shift m 1
    → hi < shift k 1
    → bit_and (shift m hi + lo) (shift m (ones k)) ≡ shift m hi
bit_and-mask m k hi lo l h =
    simp bit_and-bitwise
      (digits-min-shift m k (shift m hi + lo) hi lo (shift m hi + lo) (le_refl _) refl l h)
