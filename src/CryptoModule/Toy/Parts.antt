-- ===== src/CryptoModule/Toy/Parts.antt =====
-- Hexadecimal texts for the concrete module: a decision, a cut to a size, bytes of code units.
use moa_crypto.Common.{
  ℕ, zero, suc, ◌*◌, ◌/◌, ◌%◌, ◌≡◌, ◌≢◌, refl, Bool, true, false, Option, none, some, List, [], ◌∷◌,
  length, arith, ◌<◌,
}
use moa_crypto.Text.{Text, digit, parse_int16}
use moa_crypto.Text.Laws.{Free}
use moa_crypto.Text.Hex.{is_hex_digit, IsHex}

pub IsHex-prop : (t : Text) → IsProp (IsHex t)
IsHex-prop [] = hlevel
IsHex-prop (a ∷ []) = hlevel
IsHex-prop (a ∷ b ∷ t) = hlevel (IsHex-prop t)

pub false-ne-true : false ≢ true
false-ne-true e = cc

abbrev dec_true : (b : Bool) → Dec (b ≡ true)
dec_true true = yes refl
dec_true false = no false-ne-true

abbrev dec_and : {A B C : Type 0} → Dec A → Dec B → Dec C → Dec (A × B × C)
dec_and (yes a) (yes b) (yes c) = yes (a, b, c)
dec_and (no n) _ _ = no (λ h. n h.0)
dec_and (yes a) (no n) _ = no (λ h. n h.1)
dec_and (yes a) (yes b) (no n) = no (λ h. n h.2)

abbrev pub dec_IsHex : (t : Text) → Dec (IsHex t)
dec_IsHex [] = yes tt
dec_IsHex (a ∷ []) = no (λ h. h)
dec_IsHex (a ∷ b ∷ t) =
    dec_and (dec_true (is_hex_digit a)) (dec_true (is_hex_digit b)) (dec_IsHex t)

-- The first n bytes, filled up with zeros.
abbrev pub fit : ℕ → Text → Text
fit zero t = []
fit (suc n) [] = b'0' ∷ b'0' ∷ fit n []
fit (suc n) (a ∷ []) = b'0' ∷ b'0' ∷ fit n []
fit (suc n) (a ∷ b ∷ t) = a ∷ b ∷ fit n t

pub fit-IsHex : (n : ℕ) (t : Text) → IsHex t → IsHex (fit n t)
fit-IsHex zero t h = tt
fit-IsHex (suc n) [] h = (refl, refl, fit-IsHex n [] tt)
fit-IsHex (suc n) (a ∷ []) h = absurd h
fit-IsHex (suc n) (a ∷ b ∷ t) (p, q, h) = (p, q, fit-IsHex n t h)

pub length-fit : (n : ℕ) (t : Text) → length (fit n t) ≡ 2 * n
length-fit zero t = refl
length-fit (suc n) [] = omega (arith, length-fit n [])
length-fit (suc n) (a ∷ []) = omega (arith, length-fit n [])
length-fit (suc n) (a ∷ b ∷ t) = omega (arith, length-fit n t)

abbrev pub octets : Text → Text
unfolding digit
octets [] = []
octets (c ∷ t) = digit (c / 16 % 16) ∷ digit (c % 16) ∷ octets t

digit-is_hex_digit : (d : ℕ) → d < 16 → is_hex_digit (digit d) ≡ true
unfolding digit
digit-is_hex_digit d h = ground arith

pub octets-IsHex : (t : Text) → IsHex (octets t)
unfolding digit
octets-IsHex [] = tt
octets-IsHex (c ∷ t) = (
  digit-is_hex_digit (c / 16 % 16) (omega arith),
  digit-is_hex_digit (c % 16) (omega arith),
  octets-IsHex t,
)

abbrev or_zero : Option ℕ → ℕ
or_zero none = 0
or_zero (some n) = n

-- Eight digits a word; a rest of less is left out.
abbrev pub words_of : Text → List ℕ
unfolding parse_int16
words_of (a ∷ b ∷ c ∷ d ∷ e ∷ f ∷ g ∷ h ∷ t) =
    or_zero (parse_int16 (a ∷ b ∷ c ∷ d ∷ e ∷ f ∷ g ∷ h ∷ [])) ∷ words_of t
words_of _ = []

ne_of_is_hex_digit : (c a : ℕ) → is_hex_digit c ≡ false → is_hex_digit a ≡ true → a ≢ c
ne_of_is_hex_digit c a p q e = cc

pub Free-of_IsHex : (c : ℕ) → is_hex_digit c ≡ false → (t : Text) → IsHex t → Free c t
Free-of_IsHex c p [] h = tt
Free-of_IsHex c p (a ∷ []) h = absurd h
Free-of_IsHex c p (a ∷ b ∷ t) (q, r, h) =
    (ne_of_is_hex_digit c a p q, (ne_of_is_hex_digit c b p r, Free-of_IsHex c p t h))
