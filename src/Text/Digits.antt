-- ===== src/Text/Digits.antt =====
-- Two hexadecimal digits and the byte that they stand for.
use moa_crypto.Common.{
  ◌≡◌, refl, ap, ℕ, ◌+◌, ◌*◌, ◌/◌, ◌%◌, ◌<◌, [], ◌∷◌, some, true, arith, List, ◌++◌, All, length,
}
use mathlib.Core.Path.{ap₂}
use moa_crypto.Text.{Text, digit, digit_value, parse_int16, nan_to_zero}
use moa_crypto.Text.Hex.{IsHex, is_hex_digit}

-- The value of a hexadecimal digit.
abbrev pub digit_of : ℕ → ℕ
digit_of a = nan_to_zero (digit_value a)

pub digit_value-hex :
    (a : ℕ) → is_hex_digit a ≡ true → (digit_value a ≡ some (digit_of a)) × (digit_of a < 16)
unfolding digit_value
digit_value-hex a h = ground arith

parse_two :
    (a b m n : ℕ)
    → digit_value a ≡ some m
    → digit_value b ≡ some n
    → parse_int16 (a ∷ b ∷ []) ≡ some (m * 16 + n)
unfolding parse_int16
parse_two a b m n p q = ground arith

pub parse_int16-two :
    (a b : ℕ)
    → is_hex_digit a ≡ true
    → is_hex_digit b ≡ true
    → parse_int16 (a ∷ b ∷ []) ≡ some (digit_of a * 16 + digit_of b)
parse_int16-two a b p q =
    parse_two a b (digit_of a) (digit_of b) (digit_value-hex a p).0 (digit_value-hex b q).0

abbrev pub two_digits : ℕ → Text
two_digits n = digit (n / 16) ∷ digit (n % 16) ∷ []

-- A text of two digits for each byte, and back.
abbrev pub hex_of : List ℕ → Text
hex_of [] = []
hex_of (b ∷ bs) = two_digits b ++ hex_of bs

abbrev pub unhex : Text → List ℕ
unhex (a ∷ b ∷ t) = (digit_of a * 16 + digit_of b) ∷ unhex t
unhex _ = []

digit_of-digit : (d : ℕ) → d < 16 → digit_of (digit d) ≡ d
unfolding digit digit_value
digit_of-digit d h = ground arith

digit-digit_of : (a : ℕ) → is_hex_digit a ≡ true → digit (digit_of a) ≡ a
unfolding digit digit_value
digit-digit_of a h = ground arith

pub is_hex_digit-digit : (d : ℕ) → d < 16 → is_hex_digit (digit d) ≡ true
unfolding digit
is_hex_digit-digit d h = ground arith

pub hex_of-IsHex : (bs : List ℕ) → All (λ b. b < 256) bs → IsHex (hex_of bs)
hex_of-IsHex [] h = tt
hex_of-IsHex (b ∷ bs) (p, h) = (
  is_hex_digit-digit (b / 16) (omega arith),
  is_hex_digit-digit (b % 16) (omega arith),
  hex_of-IsHex bs h,
)

pub unhex-hex_of : (bs : List ℕ) → All (λ b. b < 256) bs → unhex (hex_of bs) ≡ bs
unhex-hex_of [] h = refl
unhex-hex_of (b ∷ bs) (p, h) =
    ap₂ (λ x r. x ∷ r)
      (omega (arith, digit_of-digit (b / 16) (omega arith), digit_of-digit (b % 16) (omega arith)))
      (unhex-hex_of bs h)

pub unhex-bytes : (t : Text) → IsHex t → All (λ b. b < 256) (unhex t)
unhex-bytes [] h = tt
unhex-bytes (a ∷ []) h = tt
unhex-bytes (a ∷ b ∷ t) (p, q, h) =
    (omega (arith, (digit_value-hex a p).1, (digit_value-hex b q).1), unhex-bytes t h)

pub hex_of-unhex : (t : Text) → IsHex t → hex_of (unhex t) ≡ t
hex_of-unhex [] h = refl
hex_of-unhex (a ∷ []) h = absurd h
hex_of-unhex (a ∷ b ∷ t) (p, q, h) =
    let high : (digit_of a * 16 + digit_of b) / 16 ≡ digit_of a =
      omega (arith, (digit_value-hex b q).1) in
    let low : (digit_of a * 16 + digit_of b) % 16 ≡ digit_of b =
      omega (arith, (digit_value-hex b q).1) in
    rw (high, low, digit-digit_of a p, digit-digit_of b q) (ap (λ r. a ∷ b ∷ r) (hex_of-unhex t h))

pub length-unhex : (t : Text) → IsHex t → length t ≡ 2 * length (unhex t)
length-unhex [] h = refl
length-unhex (a ∷ []) h = absurd h
length-unhex (a ∷ b ∷ t) (p, q, h) = omega (arith, length-unhex t h)
