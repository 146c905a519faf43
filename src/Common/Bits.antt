-- ===== src/Common/Bits.antt =====
-- The width of an exclusive or on the native numbers.
use Prim.Native.Nat.{
  ℕ, zero, suc, ◌/◌, ◌%◌, ◌^◌, ◌≤◌, ◌<◌, bit_xor, bitwise, digits, differ, bit_xor-bitwise,
}
use mathlib.Core.Path.{◌≡◌, refl, sym, ap, ◌∙◌}
use native.Mathlib.Nat.{le_refl, pow-suc}
use native.Mathlib.Omega.{arith}

pub differ-lt_two : (x y : ℕ) → x < 2 → y < 2 → differ x y < 2
differ-lt_two zero y p q = q
differ-lt_two (suc x) zero p q = p
differ-lt_two (suc x) (suc y) p q = differ-lt_two x y (omega arith) (omega arith)

-- Whatever the count of digits to go, the width is kept.
digits-lt :
    (width count a b : ℕ)
    → a ≤ count
    → a < 2 ^ width
    → b < 2 ^ width
    → digits (λ y. y) differ count a b < 2 ^ width
digits-lt width zero a b c p q = q
digits-lt width (suc count) zero b c p q = q
digits-lt zero (suc count) (suc a) b c p q = absurd (omega arith)
digits-lt (suc width) (suc count) (suc a) b c p q =
    let twice = pow-suc 2 width in
    let low = differ-lt_two (suc a % 2) (b % 2) (omega arith) (omega arith) in
    let high =
      digits-lt width count (suc a / 2) (b / 2) (omega arith) (omega (arith, twice))
        (omega (arith, twice)) in
    omega (arith, twice, low, high)

-- Two numbers of so many digits have an exclusive or of so many.
pub bit_xor-lt : (width a b : ℕ) → a < 2 ^ width → b < 2 ^ width → bit_xor a b < 2 ^ width
bit_xor-lt width a b p q = simp bit_xor-bitwise (digits-lt width a a b (le_refl a) p q)

differ_twice : (x y : ℕ) → x < 2 → y < 2 → differ (differ x y) y ≡ x
differ_twice zero zero p q = refl
differ_twice zero (suc zero) p q = refl
differ_twice zero (suc (suc y)) p q = absurd (omega arith)
differ_twice (suc zero) zero p q = refl
differ_twice (suc zero) (suc zero) p q = refl
differ_twice (suc zero) (suc (suc y)) p q = absurd (omega arith)
differ_twice (suc (suc x)) y p q = absurd (omega arith)

differ_self : (x : ℕ) → differ x x ≡ 0
differ_self zero = refl
differ_self (suc x) = differ_self x

digits_self : (count b : ℕ) → b ≤ count → digits (λ y. y) differ count b b ≡ 0
digits_self zero b c = omega arith
digits_self (suc count) zero c = refl
digits_self (suc count) (suc b) c =
    omega (arith, digits_self count (suc b / 2) (omega arith), differ_self (suc b % 2))

differ_zero : (x y : ℕ) → differ x y ≡ 0 → x ≡ y
differ_zero zero y e = sym e
differ_zero (suc x) zero e = e
differ_zero (suc x) (suc y) e = ap suc (differ_zero x y e)

-- Where the operation gives 0, the numbers are the same.
digits_vanish : (n a b : ℕ) → a ≤ n → digits (λ y. y) differ n a b ≡ 0 → b ≡ a
digits_vanish zero a b c e = e ∙ omega arith
digits_vanish (suc n) zero b c e = e
digits_vanish (suc n) (suc a) b c e =
    let same = differ_zero (suc a % 2) (b % 2) (omega (arith, e)) in
    let half = digits_vanish n (suc a / 2) (b / 2) (omega arith) (omega (arith, e)) in
    omega (arith, same, half)

-- The operation twice with the same number, whatever the two counts.
digits_twice :
    (n m a b x : ℕ)
    → a ≤ n
    → x ≡ digits (λ y. y) differ n a b
    → x ≤ m
    → digits (λ y. y) differ m x b ≡ a
digits_twice zero m a b x c e h =
    let none_left : a ≡ 0 = omega arith in
    let same : x ≡ b = e in rw (same, none_left) (digits_self m b (omega arith))
digits_twice (suc n) m zero b x c e h =
    let same : x ≡ b = e in rw same (digits_self m b (omega arith))
digits_twice (suc n) zero (suc a) b x c e h =
    digits_vanish (suc n) (suc a) b c (sym e ∙ omega arith)
digits_twice (suc n) (suc m) (suc a) b zero c e h = digits_vanish (suc n) (suc a) b c (sym e)
digits_twice (suc n) (suc m) (suc a) b (suc x) c e h =
    let bit = differ-lt_two (suc a % 2) (b % 2) (omega arith) (omega arith) in
    let high =
      digits_twice n m (suc a / 2) (b / 2) (suc x / 2) (omega arith) (omega (arith, e, bit))
        (omega arith) in
    let digit : suc x % 2 ≡ differ (suc a % 2) (b % 2) = omega (arith, e, bit) in
    let low : differ (suc x % 2) (b % 2) ≡ suc a % 2 =
      rw digit (differ_twice (suc a % 2) (b % 2) (omega arith) (omega arith)) in
    omega (arith, high, low)

-- Exclusive or with the same number twice changes nothing.
pub bit_xor_twice : (a b : ℕ) → bit_xor (bit_xor a b) b ≡ a
bit_xor_twice a b =
    simp bit_xor-bitwise
      (digits_twice a (bitwise (λ y. y) differ a b) a b _ (le_refl a) refl (le_refl _))

differ_comm : (x y : ℕ) → differ x y ≡ differ y x
differ_comm zero zero = refl
differ_comm zero (suc y) = refl
differ_comm (suc x) zero = refl
differ_comm (suc x) (suc y) = differ_comm x y

digits-zero : (count a : ℕ) → a ≤ count → digits (λ y. y) differ count a 0 ≡ a
digits-zero zero a c = omega arith
digits-zero (suc count) zero c = refl
digits-zero (suc count) (suc a) c =
    omega (arith, digits-zero count (suc a / 2) (omega arith), differ_comm (suc a % 2) 0)

pub bit_xor-zero : (a : ℕ) → bit_xor a 0 ≡ a
bit_xor-zero a = simp bit_xor-bitwise (digits-zero a a (le_refl a))

digits_comm :
    (n m a b : ℕ) → a ≤ n → b ≤ m → digits (λ y. y) differ n a b ≡ digits (λ y. y) differ m b a
digits_comm zero m zero b p q = sym (digits-zero m b q)
digits_comm zero m (suc a) b p q = absurd (omega arith)
digits_comm (suc n) m zero b p q = sym (digits-zero m b q)
digits_comm (suc n) zero (suc a) zero p q = digits-zero (suc n) (suc a) p
digits_comm (suc n) zero (suc a) (suc b) p q = absurd (omega arith)
digits_comm (suc n) (suc m) (suc a) zero p q = digits-zero (suc n) (suc a) p
digits_comm (suc n) (suc m) (suc a) (suc b) p q = omega (
  arith,
  digits_comm n m (suc a / 2) (suc b / 2) (omega arith) (omega arith),
  differ_comm (suc a % 2) (suc b % 2),
)

pub bit_xor_comm : (a b : ℕ) → bit_xor a b ≡ bit_xor b a
bit_xor_comm a b = simp bit_xor-bitwise (digits_comm a b a b (le_refl a) (le_refl b))

-- Exclusive or of the result with the one number gives the other.
pub bit_xor_other : (a b : ℕ) → bit_xor (bit_xor a b) a ≡ b
bit_xor_other a b = ap (λ x. bit_xor x a) (bit_xor_comm a b) ∙ bit_xor_twice b a
