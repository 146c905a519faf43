-- ===== src/Wallet/Halving.antt =====
-- The loop of getEncryptedHmacPsw that folds an HMAC to half its size.
use Prim.Native.Nat.{bit_xor}
use mathlib.Core.Path.{subst}
use moa_crypto.Common.{
  ◌≡◌, refl, sym, ap, ◌∙◌, ℕ, suc, ◌+◌, ◌*◌, ◌/◌, ◌%◌, ◌<◌, ◌++◌, [], ◌∷◌, true, arith, length,
  length-append, append_assoc, drop-append, holds_below, test_of_holds_below,
}
use moa_crypto.Common.Bits.{bit_xor-lt}
use moa_crypto.Text.{Text, digit, substr, text_eq}
use moa_crypto.Text.Laws.{eq_of_text_eq}
use moa_crypto.Text.Hex.{IsHex}
use moa_crypto.Text.Digits.{digit_of, digit_value-hex, parse_int16-two, two_digits}
use moa_crypto.Wallet.Password.{half_hmac, decimal_to_hex_string, pos}

-- The exclusive or of two texts in hexadecimal, byte for byte.
pub xor_hex : Text → Text → Text
xor_hex (a₁ ∷ a₂ ∷ a) (b₁ ∷ b₂ ∷ b) =
    let v = bit_xor (digit_of a₁ * 16 + digit_of a₂) (digit_of b₁ * 16 + digit_of b₂) in
    digit (v / 16) ∷ digit (v % 16) ∷ xor_hex a b
xor_hex _ _ = []

byte_table : holds_below (λ n. text_eq (decimal_to_hex_string (pos n)) (two_digits n)) 256 ≡ true
unfolding decimal_to_hex_string holds_below
byte_table = refl

decimal_to_hex_string-byte : (n : ℕ) → n < 256 → decimal_to_hex_string (pos n) ≡ two_digits n
decimal_to_hex_string-byte n h = eq_of_text_eq _ _ (test_of_holds_below _ 256 n h byte_table)

-- The two units at the end of a prefix.
two_at :
    (pa a rest : Text) (a₁ a₂ : ℕ)
    → substr ((pa ++ a₁ ∷ a₂ ∷ a) ++ rest) (length pa) 2 ≡ a₁ ∷ a₂ ∷ []
two_at pa a rest a₁ a₂ =
    rw
      (
        append_assoc pa (a₁ ∷ a₂ ∷ a) rest,
        drop-append pa (a₁ ∷ a₂ ∷ a ++ rest) {n = length pa} refl,
      )
      refl

two_after :
    (s pb b : Text) (b₁ b₂ : ℕ)
    → substr (s ++ (pb ++ b₁ ∷ b₂ ∷ b)) (length (s ++ pb)) 2 ≡ b₁ ∷ b₂ ∷ []
two_after s pb b b₁ b₂ =
    rw
      (
        sym (append_assoc s pb (b₁ ∷ b₂ ∷ b)),
        drop-append (s ++ pb) (b₁ ∷ b₂ ∷ b) {n = length (s ++ pb)} refl,
      )
      refl

-- Where the second half is read.
seam :
    (pa pb a b : Text) (a₁ a₂ b₁ b₂ : ℕ)
    → length pa ≡ length pb
    → length a ≡ length b
    → length ((pa ++ a₁ ∷ a₂ ∷ a) ++ pb)
      ≡ length ((pa ++ a₁ ∷ a₂ ∷ a) ++ (pb ++ b₁ ∷ b₂ ∷ b)) / 2 + length pa
seam pa pb a b a₁ a₂ b₁ b₂ p q =
    rw
      (
        length-append (pa ++ a₁ ∷ a₂ ∷ a) pb,
        length-append (pa ++ a₁ ∷ a₂ ∷ a) (pb ++ b₁ ∷ b₂ ∷ b),
        length-append pa (a₁ ∷ a₂ ∷ a),
        length-append pb (b₁ ∷ b₂ ∷ b),
      )
      (omega arith)

-- One round at the seam of what is done and what is left, in both halves.
round :
    (pa pb a b : Text) (a₁ a₂ b₁ b₂ : ℕ)
    → length pa ≡ length pb
    → length a ≡ length b
    → (substr ((pa ++ a₁ ∷ a₂ ∷ a) ++ (pb ++ b₁ ∷ b₂ ∷ b)) (length pa) 2 ≡ a₁ ∷ a₂ ∷ [])
      × (substr
            ((pa ++ a₁ ∷ a₂ ∷ a) ++ (pb ++ b₁ ∷ b₂ ∷ b))
            (length ((pa ++ a₁ ∷ a₂ ∷ a) ++ (pb ++ b₁ ∷ b₂ ∷ b)) / 2 + length pa)
            2
          ≡ b₁ ∷ b₂ ∷ [])
round pa pb a b a₁ a₂ b₁ b₂ p q = (
  two_at pa a (pb ++ b₁ ∷ b₂ ∷ b) a₁ a₂,
  subst (λ n. substr ((pa ++ a₁ ∷ a₂ ∷ a) ++ (pb ++ b₁ ∷ b₂ ∷ b)) n 2 ≡ b₁ ∷ b₂ ∷ [])
      (seam pa pb a b a₁ a₂ b₁ b₂ p q) (two_after (pa ++ a₁ ∷ a₂ ∷ a) pb b b₁ b₂),
)

half_suc : (n : ℕ) → suc (suc n) / 2 ≡ suc (n / 2)
half_suc n = omega arith

-- One round of the loop, where the four digits are known.
one_round :
    (s : Text) (i rounds a₁ a₂ b₁ b₂ : ℕ)
    → substr s i 2 ≡ a₁ ∷ a₂ ∷ []
    → substr s (length s / 2 + i) 2 ≡ b₁ ∷ b₂ ∷ []
    → IsHex (a₁ ∷ a₂ ∷ [])
    → IsHex (b₁ ∷ b₂ ∷ [])
    → half_hmac (suc rounds) i s
      ≡ xor_hex (a₁ ∷ a₂ ∷ []) (b₁ ∷ b₂ ∷ []) ++ half_hmac rounds (i + 2) s
unfolding half_hmac xor_hex
one_round s i rounds a₁ a₂ b₁ b₂ p q ha hb =
    rw
      (
        p,
        q,
        parse_int16-two a₁ a₂ ha.0 ha.1,
        parse_int16-two b₁ b₂ hb.0 hb.1,
        decimal_to_hex_string-byte
            (bit_xor (digit_of a₁ * 16 + digit_of a₂) (digit_of b₁ * 16 + digit_of b₂))
            (bit_xor-lt 8 _ _
              (omega (arith, (digit_value-hex a₁ ha.0).1, (digit_value-hex a₂ ha.1).1))
              (omega (arith, (digit_value-hex b₁ hb.0).1, (digit_value-hex b₂ hb.1).1))),
      )
      refl

no_round : (i : ℕ) (s : Text) → half_hmac 0 i s ≡ []
unfolding half_hmac
no_round i s = refl

moved :
    (pa pb x y a b : Text)
    → ((pa ++ x) ++ a) ++ ((pb ++ y) ++ b) ≡ (pa ++ (x ++ a)) ++ (pb ++ (y ++ b))
moved pa pb x y a b = rw (append_assoc pa x a, append_assoc pb y b) refl

half_hmac_from :
    (pa pb a b : Text) (i : ℕ)
    → i ≡ length pa
    → length pa ≡ length pb
    → length a ≡ length b
    → IsHex a
    → IsHex b
    → half_hmac (length a / 2) i ((pa ++ a) ++ (pb ++ b)) ≡ xor_hex a b
unfolding xor_hex
half_hmac_from pa pb [] b i e p q ha hb = no_round i ((pa ++ []) ++ (pb ++ b))
half_hmac_from pa pb (a₁ ∷ []) b i e p q ha hb = absurd ha
half_hmac_from pa pb (a₁ ∷ a₂ ∷ a) [] i e p q ha hb = absurd (omega arith)
half_hmac_from pa pb (a₁ ∷ a₂ ∷ a) (b₁ ∷ []) i e p q ha hb = absurd hb
half_hmac_from pa pb (a₁ ∷ a₂ ∷ a) (b₁ ∷ b₂ ∷ b) i e p q ha hb =
    rw (half_suc (length a), e)
      (one_round (pa ++ a₁ ∷ a₂ ∷ a ++ (pb ++ b₁ ∷ b₂ ∷ b)) (length pa) (length a / 2) a₁ a₂ b₁ b₂
          (round pa pb a b a₁ a₂ b₁ b₂ p (omega arith)).0
          (round pa pb a b a₁ a₂ b₁ b₂ p (omega arith)).1 (ha.0, ha.1, tt) (hb.0, hb.1, tt)
        ∙ ap (λ t. xor_hex (a₁ ∷ a₂ ∷ []) (b₁ ∷ b₂ ∷ []) ++ t)
            (subst (λ (t : Text). half_hmac (length a / 2) (length pa + 2) t ≡ xor_hex a b)
              (moved pa pb (a₁ ∷ a₂ ∷ []) (b₁ ∷ b₂ ∷ []) a b)
              (half_hmac_from (pa ++ a₁ ∷ a₂ ∷ []) (pb ++ b₁ ∷ b₂ ∷ []) a b (length pa + 2)
                (omega (arith, length-append pa (a₁ ∷ a₂ ∷ [])))
                (omega (arith, length-append pa (a₁ ∷ a₂ ∷ []), length-append pb (b₁ ∷ b₂ ∷ [])))
                (omega arith) ha.2 hb.2)))

IsHex-even : (a : Text) → IsHex a → length a % 2 ≡ 0
IsHex-even [] h = refl
IsHex-even (x ∷ []) h = absurd h
IsHex-even (x ∷ y ∷ a) h = omega (arith, IsHex-even a h.2)

rounds_lem :
    (a b : Text)
    → length a ≡ length b
    → length a % 2 ≡ 0
    → length a / 2 ≡ (length (a ++ b) / 2 + 1) / 2
rounds_lem a b p e = omega (arith, length-append a b)

-- The loop of getEncryptedHmacPsw, run for its number of rounds on a hexadecimal text of two
-- equal halves of whole bytes, gives the exclusive or of the halves, byte for byte.
pub half_hmac-xor_hex :
    (a b : Text)
    → length a ≡ length b
    → IsHex a
    → IsHex b
    → half_hmac ((length (a ++ b) / 2 + 1) / 2) 0 (a ++ b) ≡ xor_hex a b
half_hmac-xor_hex a b p ha hb =
    subst (λ n. half_hmac n 0 (a ++ b) ≡ xor_hex a b) (rounds_lem a b p (IsHex-even a ha))
      (half_hmac_from [] [] a b 0 refl refl p ha hb)
