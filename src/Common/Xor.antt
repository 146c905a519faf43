-- ===== src/Common/Xor.antt =====
-- Exclusive or by its digits: it is associative.
use Prim.Native.Nat.{bit_xor, digits, differ, bit_xor-bitwise}
use native.Mathlib.Nat.{le_refl}
use moa_crypto.Common.{◌≡◌, refl, sym, ap, ◌∙◌, ℕ, zero, suc, ◌+◌, ◌*◌, ◌/◌, ◌%◌, ◌≤◌, ◌<◌, arith}
use moa_crypto.Common.Bits.{differ-lt_two, bit_xor_comm, bit_xor-zero}

digits_count :
    (n m a b : ℕ) → a ≤ n → a ≤ m → digits (λ y. y) differ n a b ≡ digits (λ y. y) differ m a b
digits_count zero zero a b p q = refl
digits_count zero (suc m) zero b p q = refl
digits_count zero (suc m) (suc a) b p q = absurd (omega arith)
digits_count (suc n) zero zero b p q = refl
digits_count (suc n) zero (suc a) b p q = absurd (omega arith)
digits_count (suc n) (suc m) zero b p q = refl
digits_count (suc n) (suc m) (suc a) b p q =
    omega (arith, digits_count n m (suc a / 2) (b / 2) (omega arith) (omega arith))

differ-zero : (y : ℕ) → differ 0 y ≡ y
differ-zero zero = refl
differ-zero (suc y) = refl

xor_step :
    (a b : ℕ)
    → digits (λ y. y) differ a a b
      ≡ 2 * digits (λ y. y) differ (a / 2) (a / 2) (b / 2) + differ (a % 2) (b % 2)
xor_step zero b = omega (arith, differ-zero (b % 2))
xor_step (suc a) b =
    omega (arith, digits_count a (suc a / 2) (suc a / 2) (b / 2) (omega arith) (le_refl _))

pub bit_xor-step : (a b : ℕ) → bit_xor a b ≡ 2 * bit_xor (a / 2) (b / 2) + differ (a % 2) (b % 2)
bit_xor-step a b = simp bit_xor-bitwise (xor_step a b)

pub half-bit_xor : (a b : ℕ) → bit_xor a b / 2 ≡ bit_xor (a / 2) (b / 2)
half-bit_xor a b =
    omega (arith, bit_xor-step a b, differ-lt_two (a % 2) (b % 2) (omega arith) (omega arith))

differ_assoc : (x y z : ℕ) → x < 2 → y < 2 → z < 2 → differ (differ x y) z ≡ differ x (differ y z)
differ_assoc zero zero z p q r = refl
differ_assoc zero (suc zero) zero p q r = refl
differ_assoc zero (suc zero) (suc zero) p q r = refl
differ_assoc (suc zero) zero zero p q r = refl
differ_assoc (suc zero) zero (suc zero) p q r = refl
differ_assoc (suc zero) (suc zero) zero p q r = refl
differ_assoc (suc zero) (suc zero) (suc zero) p q r = refl
differ_assoc (suc (suc x)) y z p q r = absurd (omega arith)
differ_assoc x (suc (suc y)) z p q r = absurd (omega arith)
differ_assoc x y (suc (suc z)) p q r = absurd (omega arith)

last-bit_xor : (a b : ℕ) → bit_xor a b % 2 ≡ differ (a % 2) (b % 2)
last-bit_xor a b =
    omega (arith, bit_xor-step a b, differ-lt_two (a % 2) (b % 2) (omega arith) (omega arith))

pub zero-bit_xor : (a : ℕ) → bit_xor 0 a ≡ a
zero-bit_xor a = bit_xor_comm 0 a ∙ bit_xor-zero a

assoc_within : (n a b c : ℕ) → a ≤ n → bit_xor (bit_xor a b) c ≡ bit_xor a (bit_xor b c)
assoc_within zero a b c h =
    let e : a ≡ 0 = omega arith in rw (e, zero-bit_xor b, zero-bit_xor (bit_xor b c)) refl
assoc_within (suc n) a b c h =
    let halves = assoc_within n (a / 2) (b / 2) (c / 2) (omega arith) in
    let lasts = differ_assoc (a % 2) (b % 2) (c % 2) (omega arith) (omega arith) (omega arith) in
    rw
      (
        bit_xor-step (bit_xor a b) c,
        bit_xor-step a (bit_xor b c),
        half-bit_xor a b,
        half-bit_xor b c,
        last-bit_xor a b,
        last-bit_xor b c,
        halves,
        lasts,
      )
      refl

pub bit_xor_assoc : (a b c : ℕ) → bit_xor (bit_xor a b) c ≡ bit_xor a (bit_xor b c)
bit_xor_assoc a b c = assoc_within a a b c (le_refl a)

pub bit_xor_exchange :
    (a b c d : ℕ) → bit_xor (bit_xor a b) (bit_xor c d) ≡ bit_xor (bit_xor a c) (bit_xor b d)
bit_xor_exchange a b c d =
    bit_xor_assoc a b (bit_xor c d)
    ∙ ap (bit_xor a)
        (sym (bit_xor_assoc b c d) ∙ ap (λ x. bit_xor x d) (bit_xor_comm b c) ∙ bit_xor_assoc c b d)
    ∙ sym (bit_xor_assoc a c (bit_xor b d))

pub bit_xor_exchange_four :
    (a b c d a' b' c' d' : ℕ)
    → bit_xor (bit_xor (bit_xor (bit_xor a a') (bit_xor b b')) (bit_xor c c')) (bit_xor d d')
      ≡ bit_xor (bit_xor (bit_xor (bit_xor a b) c) d) (bit_xor (bit_xor (bit_xor a' b') c') d')
bit_xor_exchange_four a b c d a' b' c' d' =
    ap (λ x. bit_xor (bit_xor x (bit_xor c c')) (bit_xor d d')) (bit_xor_exchange a a' b b')
    ∙ ap (λ x. bit_xor x (bit_xor d d')) (bit_xor_exchange (bit_xor a b) (bit_xor a' b') c c')
    ∙ bit_xor_exchange (bit_xor (bit_xor a b) c) (bit_xor (bit_xor a' b') c') d d'
