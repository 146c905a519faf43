-- ===== src/Text/Hex.antt =====
-- Hexadecimal texts: lower-case digits, two for each byte.
use moa_crypto.Common.{◌≡◌, Bool, true, ◌&&◌, ◌||◌, [], ◌∷◌, ◌++◌, leb, ℕ}
use moa_crypto.Text.{Text}

abbrev pub is_hex_digit : ℕ → Bool
is_hex_digit c = (leb b'0' c && leb c b'9') || (leb b'a' c && leb c b'f')

abbrev pub IsHex : Text → Type 0
IsHex [] = Unit
IsHex (a ∷ []) = ⊥
IsHex (a ∷ b ∷ t) = (is_hex_digit a ≡ true) × (is_hex_digit b ≡ true) × IsHex t

pub IsHex-append : (s t : Text) → IsHex s → IsHex t → IsHex (s ++ t)
IsHex-append [] t h k = k
IsHex-append (a ∷ []) t h k = absurd h
IsHex-append (a ∷ b ∷ s) t (p, q, h) k = (p, q, IsHex-append s t h k)
